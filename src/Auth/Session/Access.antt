-- ===== src/Auth/Session/Access.antt =====
-- Who a session shows, and who gets the token for uploads.
use algo_test.Prelude.{
  ◌≡◌, ◌↔◌, refl, ap, sym, ◌∙◌, Bool, true, false, Option, none, some, if◌then◌else◌, Text,
  is_blank, trim, ◌||◌, Map, Bool-cases, Option-cases, inl, inr,
}
use algo_test.Auth.Session.{
  UserRole, admin, competitor, SessionUser, LoginCredentials, Cookie, RequestHeaders, LoginRequest,
  LoginReply, LoginBody, login_request, login_taken, login_refused, login_thrown, role_eq,
  SessionRequest, session_request, session_token, MeReply, me_user, me_refused, me_thrown, user_of,
  fetch_session_user, admin_session_cookie,
}
use algo_test.Auth.Session.Apps.{
  cookie_name, login_action, only_admin, get_session_user_action, get_admin_upload_config,
}
use algo_test.Auth.Session.Granted.{
  granted, granted_by, session_token-jar_after, login_action-granted,
}

role_eq_iff : (a b : UserRole) → (role_eq a b ≡ true) ↔ (a ≡ b)
unfolding role_eq
role_eq_iff admin admin = (λ h. refl, λ h. refl)
role_eq_iff admin competitor = (λ h. absurd (cc h), λ h. absurd (cc h))
role_eq_iff competitor admin = (λ h. absurd (cc h), λ h. absurd (cc h))
role_eq_iff competitor competitor = (λ h. refl, λ h. refl)

user_of_iff :
    (reply : MeReply) (user : SessionUser) → (user_of reply ≡ some user) ↔ (reply ≡ me_user user)
user_of_iff me_refused user = (λ h. absurd (cc h), λ h. absurd (cc h))
user_of_iff me_thrown user = (λ h. absurd (cc h), λ h. absurd (cc h))
user_of_iff (me_user u) user = (λ h. cc h, λ h. cc h)

only_admin_iff :
    (found : Option SessionUser) (user : SessionUser)
    → (only_admin found ≡ some user) ↔ ((found ≡ some user) × (user.role ≡ admin))
only_admin_iff none user = (λ h. absurd (cc h), λ h. absurd (cc h.0))
only_admin_iff (some u) user = elim (Bool-cases (role_eq u.role admin)) [
  | inl is_admin ↦ rw is_admin (
    λ h.
        let e : u ≡ user = cc h in
        (h, sym (ap (λ x. x.role) e) ∙ (role_eq_iff u.role admin).0 is_admin),
    λ h. h.0,
  )
  | inr other ↦ rw other (
    λ h. absurd (cc h),
    λ h.
        let e : u ≡ user = cc h.0 in
        absurd (cc ((role_eq_iff u.role admin).1 (ap (λ x. x.role) e ∙ h.1), other)),
  )
]

-- An admin is found exactly when the backend names one.
admin_of_iff :
    (reply : MeReply) (user : SessionUser)
    → (only_admin (user_of reply) ≡ some user) ↔ ((reply ≡ me_user user) × (user.role ≡ admin))
admin_of_iff reply user =
    let (to, from) = only_admin_iff (user_of reply) user in
    let (read, show) = user_of_iff reply user in
    (λ h. (read (to h).0, (to h).1), λ h. from (show h.0, h.1))

-- The token for uploads is given out exactly when it is the token in the cookie of the admin's
-- console and the backend names an admin for it.
pub get_admin_upload_config_iff :
    (me : SessionRequest → MeReply) (headers : Option RequestHeaders) (jar : Map Cookie)
    (token : Text)
    → (get_admin_upload_config me headers jar ≡ some token) ↔ (
        (session_token admin_session_cookie jar ≡ some token)
        × ((user : SessionUser) × (me (session_request headers token) ≡ me_user user)
            × (user.role ≡ admin)))
unfolding get_admin_upload_config get_session_user_action fetch_session_user
get_admin_upload_config_iff me headers jar token =
    elim (Option-cases (session_token admin_session_cookie jar)) [
      | inl e ↦
          rw (get_admin_upload_config, get_session_user_action, fetch_session_user, e)
            (λ h. absurd (cc h), λ h. absurd (cc h.0))
      | inr (t, e) ↦ elim (Option-cases (only_admin (user_of (me (session_request headers t))))) [
        | inl refused ↦
            rw (get_admin_upload_config, get_session_user_action, fetch_session_user, e, refused)
              (
                λ h. absurd (cc h),
                λ (same, (user, names, role)).
                    let at : t ≡ token = cc same in
                    absurd (
                      cc (
                        refused,
                        (admin_of_iff (me (session_request headers t)) user).1
                            (ap (λ x. me (session_request headers x)) at ∙ names, role),
                      )),
              )
        | inr (user, found) ↦
            rw (get_admin_upload_config, get_session_user_action, fetch_session_user, e, found)
              (
                λ same.
                    let at : t ≡ token = cc (e, same) in
                    let (names, role) =
                      (admin_of_iff (me (session_request headers t)) user).0 found in
                    (
                      sym e ∙ same,
                      (user, sym (ap (λ x. me (session_request headers x)) at) ∙ names, role),
                    ),
                λ h. e ∙ h.0,
              )
      ]
    ]

granted_by-role :
    (expected : UserRole) (reply : LoginReply) (body : LoginBody)
    → granted_by expected reply ≡ some body
    → body.user.role ≡ expected
granted_by-role expected (login_refused message) body h = absurd (cc h)
granted_by-role expected (login_thrown message) body h = absurd (cc h)
granted_by-role expected (login_taken b) body h = elim (Bool-cases (role_eq b.user.role expected)) [
  | inl same ↦
      let e : b ≡ body = cc (h, same) in
      sym (ap (λ x. x.user.role) e) ∙ (role_eq_iff b.user.role expected).0 same
  | inr other ↦ absurd (cc (h, other))
]

taken_branch :
    (missing : Bool) (grant : Option LoginBody) (body : LoginBody)
    → (if missing then none else grant) ≡ some body
    → grant ≡ some body
taken_branch true grant body h = absurd (cc h)
taken_branch false grant body h = h

granted-role :
    (app : UserRole) (answer : LoginRequest → LoginReply) (headers : RequestHeaders)
    (credentials : LoginCredentials) (body : LoginBody)
    → granted app answer headers credentials ≡ some body
    → body.user.role ≡ app
granted-role app answer headers credentials body h =
    granted_by-role app (answer (login_request headers credentials)) body (
      taken_branch (is_blank (trim credentials.username) || is_blank credentials.password) _ body h)

-- The session of an app shows the user that the backend names for its token, of the app's role.
get_session_user_action-named :
    (app : UserRole) (me : SessionRequest → MeReply) (headers : Option RequestHeaders)
    (jar : Map Cookie) (token : Text) (user : SessionUser)
    → session_token (cookie_name app) jar ≡ some token
    → me (session_request headers token) ≡ me_user user
    → user.role ≡ app
    → get_session_user_action app me headers jar ≡ some user
unfolding get_session_user_action fetch_session_user
get_session_user_action-named competitor me headers jar token user e names role =
    rw (get_session_user_action, fetch_session_user, e, names) refl
get_session_user_action-named admin me headers jar token user e names role =
    rw (get_session_user_action, fetch_session_user, e)
      ((admin_of_iff (me (session_request headers token)) user).1 (names, role))

-- After a login of an app that is granted a token, the app shows the user of the login, if the
-- backend names that user for the token.
pub get_session_user_action-login_action :
    (app : UserRole) (secure : Bool) (answer : LoginRequest → LoginReply) (headers : RequestHeaders)
    (credentials : LoginCredentials) (jar : Map Cookie) (me : SessionRequest → MeReply)
    (later : Option RequestHeaders) (body : LoginBody)
    → granted app answer headers credentials ≡ some body
    → is_blank body.session_token ≡ false
    → me (session_request later body.session_token) ≡ me_user body.user
    → get_session_user_action app me later
        (login_action app secure answer headers credentials jar).1
      ≡ some body.user
get_session_user_action-login_action app secure answer headers credentials jar me later body grant
      full named =
    get_session_user_action-named app me later
      (login_action app secure answer headers credentials jar).1 body.session_token body.user
      (ap (session_token (cookie_name app))
          (login_action-granted app secure answer headers credentials jar).1
        ∙ session_token-jar_after app app secure jar (granted app answer headers credentials)
        ∙ rw ((role_eq_iff app app).1 refl, grant, full) refl)
      named (granted-role app answer headers credentials body grant)

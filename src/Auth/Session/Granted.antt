-- ===== src/Auth/Session/Granted.antt =====
-- When a login is granted, and the sessions of the two apps apart from each other.
use algo_test.Prelude.{
  ◌≡◌, refl, ap, sym, ◌∙◌, Bool, ◌||◌, String, Option, none, some, is_some, List, [], ◌∷◌,
  if◌then◌else◌, Text, trim, is_blank, Map, put, delete, get-put, get-delete, str_eq, Bool-cases,
  Option-cases, subst, str_eq_iff, inl, inr,
}
use algo_test.Auth.Session.{
  UserRole, admin, competitor, LoginCredentials, Cookie, RequestHeaders, LoginRequest, LoginReply,
  LoginBody, login_taken, login_refused, login_thrown, role_eq, login_request, cookie_of,
  authenticate_user, conclude_login, credentials_issue, is_wrong_role, session_token,
  revoke_user_session,
}
use algo_test.Auth.Session.Apps.{
  cookie_name, login_action, Action, signs_in, signs_out, act, act_all,
}

-- The body of a reply that a login with this role can use.
abbrev pub granted_by : UserRole → LoginReply → Option LoginBody
granted_by expected (login_refused message) = none
granted_by expected (login_thrown message) = none
granted_by expected (login_taken body) = if role_eq body.user.role expected then some body else none

-- A login is granted if it names a user and a password, and the backend takes it for a user of the
-- role.
abbrev pub granted :
    UserRole → (LoginRequest → LoginReply) → RequestHeaders → LoginCredentials → Option LoginBody
granted expected answer headers credentials =
    if is_blank (trim credentials.username) || is_blank credentials.password
    then none
    else granted_by expected (answer (login_request headers credentials))

abbrev pub jar_after : Bool → String → Map Cookie → Option LoginBody → Map Cookie
jar_after secure name jar none = jar
jar_after secure name jar (some body) = put name (cookie_of secure body) jar

conclude_login-granted_by :
    (secure : Bool) (reply : LoginReply) (expected : UserRole) (name : String) (jar : Map Cookie)
    → ((conclude_login secure reply (some expected) name jar).0.success
        ≡ is_some (granted_by expected reply))
      × ((conclude_login secure reply (some expected) name jar).1
          ≡ jar_after secure name jar (granted_by expected reply))
unfolding conclude_login is_wrong_role
conclude_login-granted_by secure (login_refused message) expected name jar = (refl, refl)
conclude_login-granted_by secure (login_thrown message) expected name jar = (refl, refl)
conclude_login-granted_by secure (login_taken body) expected name jar =
    elim (Bool-cases (role_eq body.user.role expected)) [
      | inl same ↦ rw same (refl, refl)
      | inr other ↦ rw other (refl, refl)
    ]

-- A login of an app succeeds exactly when it is granted; then the cookie of the app holds the token
-- of the session, and otherwise the cookies are as before.
pub login_action-granted :
    (app : UserRole) (secure : Bool) (answer : LoginRequest → LoginReply) (headers : RequestHeaders)
    (credentials : LoginCredentials) (jar : Map Cookie)
    → let ended = login_action app secure answer headers credentials jar in
      let grant = granted app answer headers credentials in
      (ended.0.success ≡ is_some grant) × (ended.1 ≡ jar_after secure (cookie_name app) jar grant)
unfolding login_action authenticate_user credentials_issue
login_action-granted app secure answer headers credentials jar =
    elim (Bool-cases (is_blank (trim credentials.username))) [
      | inl blank ↦ rw (login_action, authenticate_user, blank) (refl, refl)
      | inr named ↦ elim (Bool-cases (is_blank credentials.password)) [
        | inl blank ↦ rw (login_action, authenticate_user, named, blank) (refl, refl)
        | inr given ↦
            rw (login_action, authenticate_user, named, given)
              (conclude_login-granted_by secure (answer (login_request headers credentials)) app
                (cookie_name app) jar)
      ]
    ]

-- The session that a text stands for: an empty text is none.
abbrev pub session_of : Text → Option Text
session_of token = if is_blank token then none else some token

-- The specification: one app alone, and all that is kept is the token of its session.
abbrev pub granted_session : Option LoginBody → Option Text → Option Text
granted_session none session = session
granted_session (some body) session = session_of body.session_token

abbrev pub session_after : UserRole → Action → Option Text → Option Text
session_after app (signs_in other headers credentials answer) session =
    if role_eq other app
    then granted_session (granted other answer headers credentials) session
    else session
session_after app (signs_out other headers) session = if role_eq other app then none else session

abbrev pub session_after_all : UserRole → List Action → Option Text → Option Text
session_after_all app [] session = session
session_after_all app (action ∷ actions) session =
    session_after_all app actions (session_after app action session)

str_eq-cookie_name :
    (app other : UserRole) → str_eq (cookie_name other) (cookie_name app) ≡ role_eq other app
unfolding role_eq
str_eq-cookie_name admin admin = refl
str_eq-cookie_name admin competitor = refl
str_eq-cookie_name competitor admin = refl
str_eq-cookie_name competitor competitor = refl

module _ (k j : String) (jar : Map Cookie) where
  session_token-put :
      (cookie : Cookie)
      → session_token j (put k cookie jar)
        ≡ (if str_eq k j then session_of cookie.value else session_token j jar)
  unfolding session_token
  session_token-put cookie =
      rw (session_token, get-put k j cookie jar)
        (elim (Bool-cases (str_eq k j)) [ inl same ↦ rw same refl | inr other ↦ rw other refl ])

  session_token-delete :
      session_token j (delete k jar) ≡ (if str_eq k j then none else session_token j jar)
  unfolding session_token
  session_token-delete =
      rw (session_token, get-delete k j jar)
        (elim (Bool-cases (str_eq k j)) [ inl same ↦ rw same refl | inr other ↦ rw other refl ])

  session_token-revoke_user_session :
      (headers : Option RequestHeaders)
      → session_token j (revoke_user_session headers k jar).1
        ≡ (if str_eq k j then none else session_token j jar)
  unfolding revoke_user_session
  session_token-revoke_user_session headers = elim (Option-cases (session_token k jar)) [
    | inl e ↦
        rw (revoke_user_session, e)
          (elim (Bool-cases (str_eq k j)) [
            | inl same ↦
                rw same (subst (λ n. session_token n jar ≡ none) ((str_eq_iff k j).0 same) e)
            | inr other ↦ rw other refl
          ])
    | inr (token, e) ↦ rw (revoke_user_session, e) session_token-delete
  ]

pub session_token-jar_after :
    (app other : UserRole) (secure : Bool) (jar : Map Cookie) (grant : Option LoginBody)
    → session_token (cookie_name app) (jar_after secure (cookie_name other) jar grant) ≡ (
        if role_eq other app
        then granted_session grant (session_token (cookie_name app) jar)
        else session_token (cookie_name app) jar)
session_token-jar_after app other secure jar none = elim (Bool-cases (role_eq other app)) [
  | inl same ↦ rw same refl
  | inr apart ↦ rw apart refl
]
session_token-jar_after app other secure jar (some body) =
    rw (sym (str_eq-cookie_name app other))
      (session_token-put (cookie_name other) (cookie_name app) jar (cookie_of secure body))

session_token-act :
    (secure : Bool) (app : UserRole) (action : Action) (jar : Map Cookie)
    → session_token (cookie_name app) (act secure action jar)
      ≡ session_after app action (session_token (cookie_name app) jar)
unfolding act
session_token-act secure app (signs_in other headers credentials answer) jar =
    ap (session_token (cookie_name app))
      (login_action-granted other secure answer headers credentials jar).1
    ∙ session_token-jar_after app other secure jar (granted other answer headers credentials)
session_token-act secure app (signs_out other headers) jar =
    rw (sym (str_eq-cookie_name app other))
      (session_token-revoke_user_session (cookie_name other) (cookie_name app) jar headers)

-- The sessions of the two apps in one browser do not touch: whatever logins and logouts of both
-- come in whatever order, the token of an app after them is what its own alone make of its token
-- before.
pub act_all-refines :
    (secure : Bool) (app : UserRole) (actions : List Action) (jar : Map Cookie)
    → session_token (cookie_name app) (act_all secure actions jar)
      ≡ session_after_all app actions (session_token (cookie_name app) jar)
unfolding act_all
act_all-refines secure app [] jar = refl
act_all-refines secure app (action ∷ actions) jar =
    act_all-refines secure app actions (act secure action jar)
    ∙ ap (session_after_all app actions) (session_token-act secure app action jar)

-- ===== src/Auth/Session/Apps.antt =====
-- The server actions of the two apps, competitor-frontend/src/actions/auth.ts and
-- admin-frontend/src/lib/actions/auth.ts, each with its own cookie, and `changeUserPassword` of
-- packages/auth/src/actions.ts. An app is named by the role that it asks for.
use algo_test.Prelude.{
  Bool, String, Option, none, some, List, [], ◌∷◌, if◌then◌else◌, Text, codes, is_blank, length,
  ltb, Map, get_or_else,
}
use algo_test.Auth.Session.{
  UserRole, admin, competitor, SessionUser, LoginCredentials, AuthActionResult, Cookie,
  session_cookie, admin_session_cookie, RequestHeaders, LoginRequest, LoginReply, role_eq,
  authenticate_user, SessionRequest, session_request, session_token, revoke_user_session, MeReply,
  fetch_session_user, text_or_else,
}

abbrev pub cookie_name : UserRole → String
cookie_name admin = admin_session_cookie
cookie_name competitor = session_cookie

unfoldable pub login_action :
    UserRole
    → Bool
    → (LoginRequest → LoginReply)
    → RequestHeaders
    → LoginCredentials
    → Map Cookie
    → AuthActionResult × Map Cookie
login_action app secure answer headers credentials jar =
    authenticate_user secure answer headers credentials (some app) (cookie_name app) jar

unfoldable pub logout_action :
    UserRole → Option RequestHeaders → Map Cookie → Option SessionRequest × Map Cookie
logout_action app headers jar = revoke_user_session headers (cookie_name app) jar

-- The admin's console shows a session only to an admin.
abbrev pub only_admin : Option SessionUser → Option SessionUser
only_admin none = none
only_admin (some user) = if role_eq user.role admin then some user else none

unfoldable pub get_session_user_action :
    UserRole → (SessionRequest → MeReply) → Option RequestHeaders → Map Cookie → Option SessionUser
unfolding role_eq
get_session_user_action competitor me headers jar = fetch_session_user me headers session_cookie jar
get_session_user_action admin me headers jar =
    only_admin (fetch_session_user me headers admin_session_cookie jar)

-- `getAdminUploadConfigAction`: the token; the address of the API is a constant.
unfoldable pub get_admin_upload_config :
    (SessionRequest → MeReply) → Option RequestHeaders → Map Cookie → Option Text
unfolding get_session_user_action
get_admin_upload_config me headers jar = elim (get_session_user_action admin me headers jar) [
  | none ↦ none
  | some user ↦ session_token admin_session_cookie jar
]

-- packages/auth/src/validation.ts, `changePasswordSchema`: the message of the first issue.
unfoldable pub password_issue : Text → Text → Option Text
password_issue current_password new_password =
    if is_blank current_password
    then some (codes "Current password is required")
    else if ltb (length new_password) 8
    then some (codes "New password must be at least 8 characters")
    else none

-- How the request to change a password ends.
pub data PasswordReply : Type 0 where
  password_refused : Option Text → PasswordReply
  password_changed : PasswordReply
  password_thrown : Option Text → PasswordReply

-- The error, if there is one.
abbrev pub password_error : PasswordReply → Option Text
password_error (password_refused message) =
    some (text_or_else message (codes "Failed to update password"))
password_error password_changed = none
password_error (password_thrown message) =
    some (get_or_else message (codes "Password update request failed"))

-- The request that is sent, with the two passwords, and how the action ends: with an error, or
-- with success.
unfoldable pub change_user_password :
    (SessionRequest × Text × Text → PasswordReply)
    → Option RequestHeaders
    → String
    → Map Cookie
    → Text
    → Text
    → Option (SessionRequest × Text × Text) × Option Text
unfolding password_issue
change_user_password answer headers name jar current_password new_password =
    elim (password_issue current_password new_password) [
      | some message ↦ (none, some message)
      | none ↦ elim (session_token name jar) [
        | none ↦ (none, some (codes "Unauthenticated"))
        | some token ↦
            let request : SessionRequest × Text × Text =
              (session_request headers token, current_password, new_password) in
            (some request, password_error (answer request))
      ]
    ]

-- What happens in one browser: one of the apps signs in or out.
pub data Action : Type 0 where
  signs_in : UserRole → RequestHeaders → LoginCredentials → (LoginRequest → LoginReply) → Action
  signs_out : UserRole → Option RequestHeaders → Action

unfoldable pub act : Bool → Action → Map Cookie → Map Cookie
unfolding login_action logout_action
act secure (signs_in app headers credentials answer) jar =
    (login_action app secure answer headers credentials jar).1
act secure (signs_out app headers) jar = (logout_action app headers jar).1

unfoldable pub act_all : Bool → List Action → Map Cookie → Map Cookie
unfolding act
act_all secure [] jar = jar
act_all secure (action ∷ actions) jar = act_all secure actions (act secure action jar)

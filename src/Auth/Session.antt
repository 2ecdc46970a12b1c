-- ===== src/Auth/Session.antt =====
-- Signing in and out, packages/auth/src/actions.ts, and the server actions of the two apps on it.
-- What the backend answers to a request is an argument, and so is whether cookies are secure. The
-- cookies of the browser are a map from their names; when they run out is left to the browser.
pub mod Granted
pub mod Apps
pub mod Access
use algo_test.Prelude.{
  ℕ, Bool, true, false, ◌&&◌, not, String, Option, none, some, List, [], ◌∷◌, ◌++◌, if◌then◌else◌,
  Text, codes, trim, is_blank, length, ltb, Map, get, put, delete, get_or_else,
}
use algo_test.Auth.{client_address}

-- packages/auth/src/types.ts
pub data UserRole : Type 0 where
  admin competitor : UserRole

pub record SessionUser : Type 0 where
  pub id : String
  pub username : Text
  pub display_name : Text
  pub role : UserRole
  pub created_at : String
  pub last_login_at : Option String
  pub team_id : Option String
  pub team_name : Option String
  pub proctor_exempt : Option Bool
  pub proctor_allow_web_only : Option Bool
  pub proctor_access_reason : Option String
  pub is_suspended : Option Bool
  pub suspended_reason : Option String
  pub suspended_at : Option String

pub record LoginCredentials : Type 0 where
  pub username : Text
  pub password : Text

pub record AuthActionResult : Type 0 where
  pub success : Bool
  pub error : Option Text
  pub user : Option SessionUser

pub record Cookie : Type 0 where
  pub value : Text
  pub http_only : Bool
  pub secure : Bool
  pub same_site : Text
  pub path : Text
  pub max_age : ℕ

-- packages/auth/src/constants.ts
abbrev pub session_cookie : String
session_cookie = "session"

abbrev pub admin_session_cookie : String
admin_session_cookie = "admin_session"

-- The headers of the request that the code reads.
pub record RequestHeaders : Type 0 where
  pub real_ip : Option Text
  pub forwarded_for : Option Text
  pub user_agent : Option Text

-- The request of a login, and how it ends: refused with an error, taken, or without an answer that
-- can be read.
pub record LoginRequest : Type 0 where
  pub forwarded_for : Option Text
  pub username : Text
  pub password : Text

pub record LoginBody : Type 0 where
  pub user : SessionUser
  pub session_token : Text
  pub expires_in_seconds : Option ℕ

pub data LoginReply : Type 0 where
  login_refused : Option Text → LoginReply
  login_taken : LoginBody → LoginReply
  login_thrown : Option Text → LoginReply

-- packages/auth/src/validation.ts, `loginCredentialsSchema`: the message of the first issue.
unfoldable pub credentials_issue : LoginCredentials → Option Text
credentials_issue credentials =
    if is_blank (trim credentials.username)
    then some (codes "Username is required")
    else if is_blank credentials.password
    then some (codes "Password is required")
    else none

-- `if (value) headers.set(…)`
abbrev pub header_of : Text → Option Text
header_of value = if is_blank value then none else some value

-- `a || b` for texts.
abbrev pub text_or_else : Option Text → Text → Text
text_or_else none fallback = fallback
text_or_else (some t) fallback = if is_blank t then fallback else t

unfoldable pub role_eq : UserRole → UserRole → Bool
role_eq admin admin = true
role_eq competitor competitor = true
role_eq _ _ = false

-- `expectedRole && user.role !== expectedRole`
unfoldable pub is_wrong_role : Option UserRole → UserRole → Bool
unfolding role_eq
is_wrong_role none role = false
is_wrong_role (some expected) role = not (role_eq role expected)

abbrev pub role_name : Option UserRole → Text
role_name none = []
role_name (some admin) = codes "admin"
role_name (some competitor) = codes "competitor"

-- `expiresInSeconds || 604800`
abbrev pub max_age_of : Option ℕ → ℕ
max_age_of none = 604800
max_age_of (some n) = if ltb 0 n then n else 604800

abbrev pub cookie_of : Bool → LoginBody → Cookie
cookie_of secure body = record {
  value = body.session_token;
  http_only = true;
  secure = secure;
  same_site = codes "lax";
  path = codes "/";
  max_age = max_age_of body.expires_in_seconds;
}

abbrev pub refusal : Text → AuthActionResult
refusal message = record { success = false; error = some message; user = none }

abbrev pub login_request : RequestHeaders → LoginCredentials → LoginRequest
login_request headers credentials = record {
  forwarded_for = header_of (client_address headers.real_ip headers.forwarded_for);
  username = trim credentials.username;
  password = credentials.password;
}

-- `authenticateUser` from the reply on.
unfoldable pub conclude_login :
    Bool → LoginReply → Option UserRole → String → Map Cookie → AuthActionResult × Map Cookie
unfolding is_wrong_role
conclude_login secure (login_refused message) expected name jar =
    (refusal (text_or_else message (codes "Invalid username or password")), jar)
conclude_login secure (login_thrown message) expected name jar =
    (refusal (get_or_else message (codes "Authentication request failed")), jar)
conclude_login secure (login_taken body) expected name jar =
    if is_wrong_role expected body.user.role
    then (refusal (codes "Access denied: " ++ role_name expected ++ codes " role required"), jar)
    else (
      record { success = true; error = none; user = some body.user },
      put name (cookie_of secure body) jar,
    )

unfoldable pub authenticate_user :
    Bool
    → (LoginRequest → LoginReply)
    → RequestHeaders
    → LoginCredentials
    → Option UserRole
    → String
    → Map Cookie
    → AuthActionResult × Map Cookie
unfolding conclude_login credentials_issue
authenticate_user secure answer headers credentials expected name jar =
    elim (credentials_issue credentials) [
      | some message ↦ (refusal message, jar)
      | none ↦ conclude_login secure (answer (login_request headers credentials)) expected name jar
    ]

-- The headers of a request in a session; those of the incoming request may not be there.
pub record SessionRequest : Type 0 where
  pub cookie : Text
  pub authorization : Text
  pub forwarded_for : Option Text
  pub user_agent : Option Text

abbrev pub forwarded_of : Option RequestHeaders → Option Text
forwarded_of none = none
forwarded_of (some headers) = header_of (client_address headers.real_ip headers.forwarded_for)

abbrev pub agent_of : Option RequestHeaders → Option Text
agent_of none = none
agent_of (some headers) = header_of (text_or_else headers.user_agent [])

abbrev pub session_request : Option RequestHeaders → Text → SessionRequest
session_request headers token = record {
  cookie = codes "session=" ++ token;
  authorization = codes "Bearer " ++ token;
  forwarded_for = forwarded_of headers;
  user_agent = agent_of headers;
}

-- `cookieStore.get(cookieName)?.value`, where an empty value counts as none.
unfoldable pub session_token : String → Map Cookie → Option Text
session_token name jar = elim (get name jar) [
  | none ↦ none
  | some cookie ↦ if is_blank cookie.value then none else some cookie.value
]

-- The request to the backend, if there is one, and the cookies; how the request ends plays no part.
unfoldable pub revoke_user_session :
    Option RequestHeaders → String → Map Cookie → Option SessionRequest × Map Cookie
unfolding session_token
revoke_user_session headers name jar = elim (session_token name jar) [
  | none ↦ (none, jar)
  | some token ↦ (some (session_request headers token), delete name jar)
]

pub data MeReply : Type 0 where
  me_refused me_thrown : MeReply
  me_user : SessionUser → MeReply

abbrev pub user_of : MeReply → Option SessionUser
user_of me_refused = none
user_of me_thrown = none
user_of (me_user user) = some user

-- `fetchSessionUser`, without the `cache` that lets the calls of one request share an answer.
unfoldable pub fetch_session_user :
    (SessionRequest → MeReply) → Option RequestHeaders → String → Map Cookie → Option SessionUser
unfolding session_token
fetch_session_user me headers name jar = elim (session_token name jar) [
  | none ↦ none
  | some token ↦ user_of (me (session_request headers token))
]

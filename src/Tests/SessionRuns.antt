-- ===== src/Tests/SessionRuns.antt =====
-- An admin and a competitor in one browser, and submissions through the server actions.
use algo_test.Prelude.{
  ℕ, ◌≡◌, ◌↔◌, ◌⊎◌, refl, subst, true, none, some, List, [], ◌∷◌, codes, String, Text, get, put,
  delete, trim, Any, Map,
}
use algo_test.Auth.Session.{
  UserRole, admin, competitor, SessionUser, LoginCredentials, Cookie, RequestHeaders, LoginRequest,
  LoginReply, login_taken, SessionRequest, session_request, session_token, MeReply, me_user,
  admin_session_cookie, cookie_of, authenticate_user, revoke_user_session,
}
use algo_test.Auth.Session.Apps.{
  cookie_name, Action, signs_in, signs_out, act_all, get_admin_upload_config,
}
use algo_test.Auth.Session.Granted.{session_after_all, act_all-refines}
use algo_test.Auth.Session.Access.{get_admin_upload_config_iff}
use algo_test.Feed.Types.{SubmissionStatusResponse, ActiveSubmission, running}
use algo_test.Feed.Session.{opened}
use algo_test.Feed.Actions.{live_status, restored}
use algo_test.Feed.Backend.{
  SubmitInput, SubmitRequest, SubmitData, Reply, taken, submit_code, submit_issue, request_of,
  BackendSubmissionItem, list_submissions,
}
use algo_test.Feed.Backend.Taken.{active_after, submit_end-submit_code}
use algo_test.Feed.Backend.Listed.{IsLive, restored-list_submissions}
use algo_test.Tests.Data.{second_test, finished}

abbrev user : UserRole → SessionUser
user role = record {
  id = "u1";
  username = codes "ada";
  display_name = codes "Ada";
  role = role;
  created_at = "10:00";
  last_login_at = none;
  team_id = none;
  team_name = none;
  proctor_exempt = none;
  proctor_allow_web_only = none;
  proctor_access_reason = none;
  is_suspended = none;
  suspended_reason = none;
  suspended_at = none;
}

abbrev grants : UserRole → Text → LoginRequest → LoginReply
grants role token request =
    login_taken (record { user = user role; session_token = token; expires_in_seconds = none })

abbrev headers : RequestHeaders
headers = record { real_ip = some (codes "10.0.0.7"); forwarded_for = none; user_agent = none }

abbrev credentials : LoginCredentials
credentials = record { username = codes " ada "; password = codes "secret" }

-- The admin signs in; a login for the contest is granted, one for the console with the role of a
-- competitor is not; the competitor signs out.
abbrev visits : List Action
visits =
    signs_in admin headers credentials (grants admin (codes "a1"))
    ∷ signs_in competitor headers credentials (grants competitor (codes "c1"))
    ∷ signs_in admin headers credentials (grants competitor (codes "c2"))
    ∷ signs_out competitor none
    ∷ []

act_all-refines_example :
    session_token (cookie_name admin) (act_all true visits [])
    ≡ session_after_all admin visits (session_token (cookie_name admin) [])
act_all-refines_example = act_all-refines true admin visits []

-- The admin is still signed in, the competitor is not.
visits_end :
    (session_token (cookie_name admin) (act_all true visits []) ≡ some (codes "a1"))
    × (session_token (cookie_name competitor) (act_all true visits []) ≡ none)
unfolding session_token act_all get revoke_user_session authenticate_user trim put delete
visits_end = (refl, refl)

abbrev names_admin : SessionRequest → MeReply
names_admin request = me_user (user admin)

abbrev signed_in : Map Cookie
signed_in =
    (
      "admin_session",
      cookie_of true
          (record { user = user admin; session_token = codes "a1"; expires_in_seconds = none }),
    )
    ∷ []

get_admin_upload_config_iff_example :
    (get_admin_upload_config names_admin none signed_in ≡ some (codes "a1")) ↔ (
      (session_token admin_session_cookie signed_in ≡ some (codes "a1"))
      × ((who : SessionUser) × (names_admin (session_request none (codes "a1")) ≡ me_user who)
          × (who.role ≡ admin)))
get_admin_upload_config_iff_example =
    get_admin_upload_config_iff names_admin none signed_in (codes "a1")

abbrev too_big : ℕ → String
too_big bound = "Number too big"

abbrev takes : SubmitRequest → Reply SubmitData
takes request =
    taken (record { id = some "s9"; status = none; queue_position = some 3; max_score = none })

abbrev input : SubmitInput
input = record {
  problem_id = codes "p1";
  code = codes "print(1)";
  previous_best = 40;
  language = codes "Python3 ";
  attest_nonce = none;
  telemetry = record {
    typed_count = some 8;
    paste_count = none;
    pasted_chars = none;
    max_paste_size = none;
  };
}

submit_end-submit_code_example :
    (get "s9" (active_after (codes "0") "p1" 40 (submit_code too_big takes input) opened)
      ≡ get "s9" opened.active_submissions)
    ⊎ ((answered : SubmitData) × (takes (request_of input) ≡ taken answered)
        × (answered.id ≡ some "s9")
        × (submit_issue too_big input ≡ none))
submit_end-submit_code_example =
    submit_end-submit_code too_big takes input (codes "0") "p1" "s9" opened

abbrev backend_item : SubmissionStatusResponse → BackendSubmissionItem
backend_item response = record {
  response = response;
  user_name = "ada";
  user_email = "ada@example.org";
  team_name = "alpha";
  problem_title = "Sum";
  language = "cpp";
  code = "";
  reviewed_by = none;
}

-- A submission that is judged, and one that is not.
abbrev backend_items : List BackendSubmissionItem
backend_items =
    backend_item (record finished { submission_id = "s0"; verdict = some "AC" })
    ∷ backend_item second_test
    ∷ []

abbrev restored_entry_of : ActiveSubmission
restored_entry_of = record {
  id = "s1";
  problem_id = "p1";
  status = running;
  queue_position = none;
  tests_done = none;
  tests_total = none;
}

abbrev no_time : String → ℕ
no_time s = 0

abbrev same_text : String → String
same_text s = s

is_restored :
    get "s1" (restored [] (list_submissions no_time same_text (taken (some backend_items))))
    ≡ some restored_entry_of
unfolding get restored list_submissions live_status put
is_restored = refl

accepted_is_no_status : live_status "AC" ≡ none
unfolding live_status
accepted_is_no_status = refl

restored-list_submissions_example : Any (IsLive "s1" restored_entry_of) backend_items
restored-list_submissions_example =
    restored-list_submissions no_time same_text "s1" restored_entry_of backend_items
      (
        λ v e. subst (λ w. live_status w ≡ none) (cc e) accepted_is_no_status,
        (λ v e. absurd (cc e), tt),
      )
      is_restored

-- ===== src/Tests/UserRuns.antt =====
-- An import of competitors, and an assignment whose second call fails.
use algo_test.Prelude.{
  ◌++◌, ◌≡◌, refl, true, false, none, some, Option, List, [], ◌∷◌, inl, inr, arith, codes, Any, All,
  Text, map, trim, any, select, if◌then◌else◌,
}
use algo_test.Csv.{ParsedCsvRow}
use algo_test.Loading.{Outcome, loaded, an_error, get_error_message}
use algo_test.Auth.Session.{SessionUser, UserRole}
use algo_test.Users.{
  CreateUserInput, ValidatedCreateUserInput, are_accepted, created, failed, BulkResult, AdminUsers,
  problem, row_input, created_credentials, handle_bulk_create, MemberCall, removes, adds,
  Assignment, handle_assign_team,
}
use algo_test.Users.Imported.{
  IsShort, IsCredited, is_failed, failure_of, handle_bulk_create_short,
  handle_bulk_create-accounted,
}
use algo_test.Users.Assigned.{attempted, plan, refusal, shown_after, handle_assign_team-attempted}

abbrev row : Text → ParsedCsvRow
row username = record {
  username = username;
  display_name = none;
  team_name = some (codes "alpha");
  password = none;
  is_valid = true;
  validation_error = none;
}

abbrev issue : List CreateUserInput → Text
issue users = codes "Username must be at least 3 characters"

abbrev result : BulkResult
result = record {
  username = codes "alice";
  status = created;
  error = none;
  password = some (codes "secret");
  team_name = some (codes "alpha");
  user_team_name = none;
}

abbrev results : List BulkResult
results = result ∷ record result { username = codes "bobby"; status = failed } ∷ []

abbrev answer : List ValidatedCreateUserInput → Outcome (List BulkResult)
answer users = loaded results

abbrev user : SessionUser
user = record {
  id = "u1";
  username = codes "alice";
  display_name = codes "Alice";
  role = UserRole.competitor;
  created_at = "10:00";
  last_login_at = none;
  team_id = some "t1";
  team_name = some "alpha";
  proctor_exempt = none;
  proctor_allow_web_only = none;
  proctor_access_reason = none;
  is_suspended = none;
  suspended_reason = none;
  suspended_at = none;
}

abbrev page : AdminUsers
page = record {
  creds = [];
  assign_team_target = some user;
  pending = false;
  show_bulk_form = true;
  bulk_errors = [];
  notice = none;
  refreshes = 0;
}

abbrev short_rows : List ParsedCsvRow
short_rows = row (codes "alice") ∷ row (codes "al") ∷ []

one-IsShort : Any IsShort short_rows
unfolding trim
one-IsShort = inr (inl (omega arith))

handle_bulk_create_short_example : handle_bulk_create issue answer short_rows page ≡ (record page {
  bulk_errors = [];
  pending = false;
  notice = some (
      problem (
        get_error_message
          (an_error (issue (map row_input short_rows)))
          (some (codes "Failed to import users."))));
})
handle_bulk_create_short_example = handle_bulk_create_short issue answer short_rows page one-IsShort

abbrev rows : List ParsedCsvRow
rows = row (codes "alice") ∷ row (codes "bobby") ∷ []

rows-accepted : are_accepted (map row_input rows) ≡ true
unfolding are_accepted
rows-accepted = refl

handle_bulk_create-accounted_example :
    All (λ r. IsCredited r (handle_bulk_create issue answer rows page).creds) results
    × ((handle_bulk_create issue answer rows page).creds ≡ created_credentials results ++ [])
    × ((handle_bulk_create issue answer rows page).bulk_errors
        ≡ map failure_of (select is_failed results))
    × ((handle_bulk_create issue answer rows page).show_bulk_form
        ≡ (if any is_failed results then true else false))
handle_bulk_create-accounted_example =
    handle_bulk_create-accounted issue answer rows results page rows-accepted refl

-- The removal is taken, the addition is not.
abbrev full_team : MemberCall → Option Text
full_team (removes team) = none
full_team (adds team) = some (codes "Team is full")

abbrev before : Assignment
before = record { page = page; calls = [] }

handle_assign_team-attempted_example :
    ((handle_assign_team full_team "t2" before).calls
      ≡ [] ++ attempted full_team (plan (some "t1") "t2"))
    × ((handle_assign_team full_team "t2" before).page
        ≡ shown_after (refusal full_team (plan (some "t1") "t2")) "t2" page)
handle_assign_team-attempted_example =
    handle_assign_team-attempted full_team "t2" user before refl refl

-- ===== src/Users.antt =====
-- admin-frontend/src/components/admin-users.tsx: the import of competitors and the assignment to a
-- team, with `bulkCreateUsersAction` of lib/actions/users.ts and its schema in
-- lib/validation/user.ts. What the backend answers is an argument, and so is the message of the
-- library zod for rows that it refuses.
pub mod Imported
pub mod Assigned
use algo_test.Prelude.{
  ℕ, suc, decimal, ◌+◌, Bool, true, false, ◌&&◌, ◌||◌, not, Option, none, some, List, [], ◌∷◌, ◌++◌,
  if◌then◌else◌, Text, codes, trim, is_blank, leb, length, map, all, get_or_else, or_else, String,
  str_eq, filled, truthy,
}
use algo_test.Csv.{ParsedCsvRow}
use algo_test.Loading.{Outcome, loaded, rejected, Thrown, an_error, get_error_message}
use algo_test.Auth.Session.{SessionUser, UserRole, competitor}

pub record CreateUserInput : Type 0 where
  pub username : Text
  pub display_name : Option Text
  pub password : Option Text
  pub team_name : Option Text

abbrev is_at_most : ℕ → Option Text → Bool
is_at_most bound none = true
is_at_most bound (some s) = leb (length (trim s)) bound

abbrev is_password : Option Text → Bool
is_password none = true
is_password (some s) = is_blank s || (leb 8 (length s) && leb (length s) 128)

-- `createUserInputSchema`
unfoldable pub is_accepted : CreateUserInput → Bool
unfolding trim
is_accepted user =
    leb 3 (length (trim user.username))
    && leb (length (trim user.username)) 50
    && is_at_most 100 user.display_name
    && is_password user.password
    && is_at_most 100 user.team_name

-- `bulkCreateUsersSchema`
unfoldable pub are_accepted : List CreateUserInput → Bool
unfolding is_accepted
are_accepted users = all is_accepted users && leb 1 (length users) && leb (length users) 1000

pub data BulkStatus : Type 0 where
  created failed : BulkStatus

pub record BulkResult : Type 0 where
  pub username : Text
  pub status : BulkStatus
  pub error : Option Text
  pub password : Option Text
  pub team_name : Option Text
  pub user_team_name : Option Text

-- What the schema gives for a row that it accepts: names without blanks around them, and the role
-- that stands for a missing one.
pub record ValidatedCreateUserInput : Type 0 where
  pub username : Text
  pub display_name : Option Text
  pub password : Option Text
  pub role : UserRole
  pub team_name : Option Text

abbrev trimmed_field : Option Text → Option Text
trimmed_field none = none
trimmed_field (some s) = some (trim s)

abbrev pub validated : CreateUserInput → ValidatedCreateUserInput
validated user = record {
  username = trim user.username;
  display_name = trimmed_field user.display_name;
  password = user.password;
  role = competitor;
  team_name = trimmed_field user.team_name;
}

-- `bulkCreateUsersAction`
unfoldable pub bulk_create_users_action :
    (List CreateUserInput → Text)
    → (List ValidatedCreateUserInput → Outcome (List BulkResult))
    → List CreateUserInput
    → Outcome (List BulkResult)
unfolding are_accepted trim
bulk_create_users_action issue answer users =
    if are_accepted users then answer (map validated users) else rejected (an_error (issue users))

pub record Credential : Type 0 where
  pub username : Text
  pub password : Text
  pub team_name : Option Text

pub data Notice : Type 0 where
  success warning problem : Text → Notice

-- The states of the page that the import and the assignment use; `refreshes` counts the calls of
-- `onRefresh`.
pub record AdminUsers : Type 0 where
  pub creds : List Credential
  pub assign_team_target : Option SessionUser
  pub pending : Bool
  pub show_bulk_form : Bool
  pub bulk_errors : List (Text × Text)
  pub notice : Option Notice
  pub refreshes : ℕ

abbrev pub row_input : ParsedCsvRow → CreateUserInput
row_input row = record {
  username = row.username;
  display_name = row.display_name;
  password = row.password;
  team_name = row.team_name;
}

-- `r.teamName || r.user?.teamName`
abbrev pub team_of_result : BulkResult → Option Text
team_of_result r = elim r.team_name [
  | none ↦ r.user_team_name
  | some team ↦ if is_blank team then r.user_team_name else some team
]

abbrev pub credential_of : BulkResult → Text → Credential
credential_of r password = record {
  username = r.username;
  password = password;
  team_name = team_of_result r;
}

abbrev pub with_credential : BulkResult → Option Text → List Credential → List Credential
with_credential r none rest = rest
with_credential r (some password) rest =
    if is_blank password then rest else credential_of r password ∷ rest

abbrev pub with_result : BulkResult → BulkStatus → List Credential → List Credential
with_result r created creds = with_credential r r.password creds
with_result r failed creds = creds

-- The passwords of the competitors that have been created.
unfoldable pub created_credentials : List BulkResult → List Credential
created_credentials [] = []
created_credentials (r ∷ rest) = with_result r r.status (created_credentials rest)

abbrev pub failure_text : Option Text → Text
failure_text none = codes "Creation failed"
failure_text (some error) = if is_blank error then codes "Creation failed" else error

abbrev pub with_failure : BulkResult → BulkStatus → List (Text × Text) → List (Text × Text)
with_failure r created errors = errors
with_failure r failed errors = (r.username, failure_text r.error) ∷ errors

unfoldable pub failed_results : List BulkResult → List (Text × Text)
failed_results [] = []
failed_results (r ∷ rest) = with_failure r r.status (failed_results rest)

-- The form is closed unless there are failures, which it lists; `made` are the credentials created.
abbrev pub close_form : ℕ → List (Text × Text) → AdminUsers → AdminUsers
close_form made [] s = record s {
  show_bulk_form = false;
  notice = some (success (decimal made ++ codes " competitor(s) imported"));
}
close_form made (failure ∷ more) s = record s {
  bulk_errors = failure ∷ more;
  notice = some (
      warning
        (decimal made ++ codes " created, " ++ decimal (suc (length more)) ++ codes " failed"));
}

-- `handleBulkCreate` from the end of the action on.
unfoldable pub end_bulk_create : Outcome (List BulkResult) → AdminUsers → AdminUsers
unfolding created_credentials failed_results decimal
end_bulk_create (rejected thrown) s = record s {
  notice = some (problem (get_error_message thrown (some (codes "Failed to import users."))));
  pending = false;
}
end_bulk_create (loaded results) s =
    close_form (length (created_credentials results)) (failed_results results) (record s {
      creds = created_credentials results ++ s.creds;
      refreshes = s.refreshes + 1;
      pending = false;
    })

unfoldable pub handle_bulk_create :
    (List CreateUserInput → Text)
    → (List ValidatedCreateUserInput → Outcome (List BulkResult))
    → List ParsedCsvRow
    → AdminUsers
    → AdminUsers
unfolding bulk_create_users_action end_bulk_create
handle_bulk_create issue answer rows s =
    end_bulk_create (bulk_create_users_action issue answer (map row_input rows))
      (record s { bulk_errors = []; pending = true })

-- A call of the backend that changes the members of a team.
pub data MemberCall : Type 0 where
  removes adds : String → MemberCall

-- The page with the calls of the backend that it has made, in their order.
pub record Assignment : Type 0 where
  pub page : AdminUsers
  pub calls : List MemberCall

abbrev pub assigned : String → AdminUsers → AdminUsers
assigned target s = record s {
  assign_team_target = none;
  notice =
      some (
        success (codes (if filled target then "Team assignment updated" else "Removed from team")));
  refreshes = s.refreshes + 1;
  pending = false;
}

abbrev pub not_assigned : Text → AdminUsers → AdminUsers
not_assigned message s = record s { notice = some (problem message); pending = false }

-- `answer` is none where the backend takes the call, and else the message that is shown.
abbrev pub add_to_team :
    (MemberCall → Option Text) → String → AdminUsers → List MemberCall → Assignment
add_to_team answer target s calls =
    if not (filled target) then record { page = assigned target s; calls = calls } else record {
      page = elim (answer (adds target)) [
        | none ↦ assigned target s
        | some message ↦ not_assigned message s
      ];
      calls = calls ++ adds target ∷ [];
    }

abbrev pub remove_and_add :
    (MemberCall → Option Text) → Option String → String → AdminUsers → List MemberCall → Assignment
remove_and_add answer previous target s calls =
    if not (truthy previous)
    then add_to_team answer target s calls
    else (let removal = removes (get_or_else previous "") in
        elim (answer removal) [
          | none ↦ add_to_team answer target s (calls ++ removal ∷ [])
          | some message ↦ record { page = not_assigned message s; calls = calls ++ removal ∷ [] }
        ])

abbrev pub is_same_team : Option String → String → Bool
is_same_team none target = false
is_same_team (some previous) target = str_eq previous target

-- `handleAssignTeam`
unfoldable pub handle_assign_team : (MemberCall → Option Text) → String → Assignment → Assignment
handle_assign_team answer target a = elim a.page.assign_team_target [
  | none ↦ a
  | some user ↦
      if is_same_team user.team_id target
      then record a { page = record a.page { assign_team_target = none } }
      else remove_and_add answer user.team_id target (record a.page { pending = true }) a.calls
]

-- ===== src/Users/Imported.antt =====
-- What the import of competitors leaves on the page.
use algo_test.Prelude.{
  ℕ, ◌+◌, ◌∙◌, ap, Bool, ◌||◌, any, select, ◌<◌, ◌≡◌, refl, true, false, Bool-cases, inl, inr,
  Option, none, some, List, [], ◌∷◌, ◌++◌, if◌then◌else◌, Text, codes, trim, is_blank, length, map,
  all, arith, Any, All,
}
use algo_test.Csv.{ParsedCsvRow}
use algo_test.Loading.{Outcome, loaded, an_error, get_error_message}
use algo_test.Users.{
  close_form, with_result, with_failure, CreateUserInput, ValidatedCreateUserInput, validated,
  is_accepted, are_accepted, BulkStatus, created, failed, BulkResult, bulk_create_users_action,
  Credential, credential_of, with_credential, AdminUsers, problem, row_input, created_credentials,
  failed_results, failure_text, end_bulk_create, handle_bulk_create,
}

-- A row whose user name is shorter than 3 characters.
abbrev pub IsShort : ParsedCsvRow → Type 0
IsShort row = length (trim row.username) < 3

short-refused : (row : ParsedCsvRow) → IsShort row → is_accepted (row_input row) ≡ false
unfolding is_accepted
short-refused row short = ground (arith, short)

some-refused :
    (rows : List ParsedCsvRow) → Any IsShort rows → all is_accepted (map row_input rows) ≡ false
some-refused [] none_short = elim none_short [ ]
some-refused (row ∷ rest) (inl short) = rw (short-refused row short) refl
some-refused (row ∷ rest) (inr later) = elim (Bool-cases (is_accepted (row_input row))) [
  | inl fine ↦ rw fine (some-refused rest later)
  | inr bad ↦ rw bad refl
]

-- If one of the rows has a user name of less than 3 characters, then none of them is imported,
-- whatever the backend would answer: the passwords that are shown stay the same, the form shows no
-- failed row, the page is not refreshed, and the only notice is the one of the validation.
pub handle_bulk_create_short :
    (issue : List CreateUserInput → Text)
    (answer : List ValidatedCreateUserInput → Outcome (List BulkResult)) (rows : List ParsedCsvRow)
    (s : AdminUsers)
    → Any IsShort rows
    → handle_bulk_create issue answer rows s ≡ (record s {
      bulk_errors = [];
      pending = false;
      notice = some (
          problem (
            get_error_message
              (an_error (issue (map row_input rows)))
              (some (codes "Failed to import users."))));
    })
unfolding handle_bulk_create bulk_create_users_action are_accepted end_bulk_create
handle_bulk_create_short issue answer rows s short = rw (some-refused rows short) refl

-- A competitor that was created with a password has it among the credentials.
abbrev CreditedAs : BulkResult → BulkStatus → Option Text → List Credential → Type 0
CreditedAs r failed password creds = Unit
CreditedAs r created none creds = Unit
CreditedAs r created (some password) creds =
    if is_blank password then Unit else Any (λ c. c ≡ credential_of r password) creds

abbrev pub IsCredited : BulkResult → List Credential → Type 0
IsCredited r creds = CreditedAs r r.status r.password creds

more-CreditedAs :
    (r : BulkResult) (status : BulkStatus) (password : Option Text) (c : Credential)
    (creds : List Credential)
    → CreditedAs r status password creds
    → CreditedAs r status password (c ∷ creds)
more-CreditedAs r failed password c creds shown = tt
more-CreditedAs r created none c creds shown = tt
more-CreditedAs r created (some []) c creds shown = tt
more-CreditedAs r created (some (k ∷ rest)) c creds shown = inr shown

with_credential-CreditedAs :
    (r other : BulkResult) (password : Option Text) (creds : List Credential)
    → IsCredited r creds
    → IsCredited r (with_credential other password creds)
with_credential-CreditedAs r other none creds shown = shown
with_credential-CreditedAs r other (some []) creds shown = shown
with_credential-CreditedAs r other (some (k ∷ rest)) creds shown =
    more-CreditedAs r r.status r.password (credential_of other (k ∷ rest)) creds shown

own-CreditedAs :
    (r : BulkResult) (password : Option Text) (creds : List Credential)
    → CreditedAs r created password (with_credential r password creds)
own-CreditedAs r none creds = tt
own-CreditedAs r (some []) creds = tt
own-CreditedAs r (some (k ∷ rest)) creds = inl refl

with_result-CreditedAs :
    (r : BulkResult) (status : BulkStatus) (creds : List Credential)
    → CreditedAs r status r.password (with_result r status creds)
with_result-CreditedAs r created creds = own-CreditedAs r r.password creds
with_result-CreditedAs r failed creds = tt

later-CreditedAs :
    (other r : BulkResult) (status : BulkStatus) (creds : List Credential)
    → IsCredited other creds
    → IsCredited other (with_result r status creds)
later-CreditedAs other r created creds shown =
    with_credential-CreditedAs other r r.password creds shown
later-CreditedAs other r failed creds shown = shown

map-IsCredited :
    (r : BulkResult) (rest : List BulkResult) (creds : List Credential)
    → All (λ other. IsCredited other creds) rest
    → All (λ other. IsCredited other (with_result r r.status creds)) rest
map-IsCredited r [] creds shown = tt
map-IsCredited r (other ∷ rest) creds (first, shown) =
    (later-CreditedAs other r r.status creds first, map-IsCredited r rest creds shown)

created_credentials-IsCredited :
    (results : List BulkResult) → All (λ r. IsCredited r (created_credentials results)) results
unfolding created_credentials
created_credentials-IsCredited [] = tt
created_credentials-IsCredited (r ∷ rest) = (
  with_result-CreditedAs r r.status (created_credentials rest),
  map-IsCredited r rest (created_credentials rest) (created_credentials-IsCredited rest),
)

Any-append : (P : Credential → Type 0) (xs ys : List Credential) → Any P xs → Any P (xs ++ ys)
Any-append P [] ys none_there = elim none_there [ ]
Any-append P (x ∷ xs) ys (inl here) = inl here
Any-append P (x ∷ xs) ys (inr later) = inr (Any-append P xs ys later)

CreditedAs-append :
    (r : BulkResult) (status : BulkStatus) (password : Option Text) (creds old : List Credential)
    → CreditedAs r status password creds
    → CreditedAs r status password (creds ++ old)
CreditedAs-append r failed password creds old shown = tt
CreditedAs-append r created none creds old shown = tt
CreditedAs-append r created (some []) creds old shown = tt
CreditedAs-append r created (some (k ∷ rest)) creds old shown =
    Any-append (λ c. c ≡ credential_of r (k ∷ rest)) creds old shown

map-CreditedAs-append :
    (results : List BulkResult) (creds old : List Credential)
    → All (λ r. IsCredited r creds) results
    → All (λ r. IsCredited r (creds ++ old)) results
map-CreditedAs-append [] creds old shown = tt
map-CreditedAs-append (r ∷ rest) creds old (first, shown) = (
  CreditedAs-append r r.status r.password creds old first,
  map-CreditedAs-append rest creds old shown,
)

abbrev pub is_failed : BulkResult → Bool
is_failed r = elim r.status [ failed ↦ true | created ↦ false ]

-- What the form lists for a failure.
abbrev pub failure_of : BulkResult → Text × Text
failure_of r = (r.username, failure_text r.error)

-- The status of each result decides whether it is listed, so the list is that of the failures.
failed_results-eq :
    (results : List BulkResult) → failed_results results ≡ map failure_of (select is_failed results)
unfolding failed_results
failed_results-eq [] = refl
failed_results-eq (r ∷ rest) =
    elim r.status
      as (λ status.
        with_failure r status (failed_results rest)
        ≡ map failure_of (
            if elim status [ failed ↦ true | created ↦ false ]
            then r ∷ select is_failed rest
            else select is_failed rest)) [
              | created ↦ failed_results-eq rest
              | failed ↦ ap (λ es. failure_of r ∷ es) (failed_results-eq rest)
            ]

-- The form stays as it is if there is a failure, and is closed else.
abbrev open_after : List (Text × Text) → Bool → Bool
open_after [] is_open = false
open_after (failure ∷ more) is_open = is_open

open_after-failed_results :
    (results : List BulkResult) (is_open : Bool)
    → open_after (failed_results results) is_open
      ≡ (if any is_failed results then is_open else false)
unfolding failed_results
open_after-failed_results [] is_open = refl
open_after-failed_results (r ∷ rest) is_open =
    elim r.status
      as (λ status. open_after (with_failure r status (failed_results rest)) is_open ≡ (
        if elim status [ failed ↦ true | created ↦ false ] || any is_failed rest
        then is_open
        else false)) [ created ↦ open_after-failed_results rest is_open | failed ↦ refl ]

-- What closing the form does to the three states that the import leaves.
close_form-accounted :
    (made : ℕ) (failures : List (Text × Text)) (s : AdminUsers)
    → s.bulk_errors ≡ []
    → ((close_form made failures s).creds ≡ s.creds)
      × ((close_form made failures s).bulk_errors ≡ failures)
      × ((close_form made failures s).show_bulk_form ≡ open_after failures s.show_bulk_form)
close_form-accounted made [] s empty = (refl, empty, refl)
close_form-accounted made (failure ∷ more) s empty = (refl, refl, refl)

-- When the backend answers for the rows that are handed over, trimmed and completed, and all of them
-- are acceptable: each competitor who was created with a password has it on the page, in front of
-- the older ones; the failures that the form lists are those of the results that failed, in their
-- order, each with its user name and message; and the form is closed if none failed, and else stays
-- as it was.
pub handle_bulk_create-accounted :
    (issue : List CreateUserInput → Text)
    (answer : List ValidatedCreateUserInput → Outcome (List BulkResult)) (rows : List ParsedCsvRow)
    (results : List BulkResult) (s : AdminUsers)
    → are_accepted (map row_input rows) ≡ true
    → answer (map validated (map row_input rows)) ≡ loaded results
    → let page = handle_bulk_create issue answer rows s in
      All (λ r. IsCredited r page.creds) results
      × (page.creds ≡ created_credentials results ++ s.creds)
      × (page.bulk_errors ≡ map failure_of (select is_failed results))
      × (page.show_bulk_form ≡ (if any is_failed results then s.show_bulk_form else false))
unfolding handle_bulk_create bulk_create_users_action end_bulk_create trim
handle_bulk_create-accounted issue answer rows results s fine answered =
    let creds = created_credentials results ++ s.creds in
    let credited =
      map-CreditedAs-append results (created_credentials results) s.creds
        (created_credentials-IsCredited results) in
    let (same, listed, open_as) =
      close_form-accounted (length (created_credentials results)) (failed_results results)
        (record s { creds = creds; refreshes = s.refreshes + 1; pending = false; bulk_errors = [] })
        refl in
    rw (fine, answered)
      (
        rw same credited,
        same,
        listed ∙ failed_results-eq results,
        open_as ∙ open_after-failed_results results s.show_bulk_form,
      )

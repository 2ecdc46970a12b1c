-- ===== src/Loading.antt =====
-- `useAsyncData` of admin-frontend/src/hooks/use-async-data.ts, with `getErrorMessage` of
-- admin-frontend/src/lib/errors.ts: data that is loaded and loaded again, by requests that may end
-- in any order. What a request ends with is an argument of the step that ends it.
pub mod Settled
use algo_test.Prelude.{
  ℕ, suc, ◌==◌, ◌≡◌, Bool, true, false, ◌&&◌, not, Option, none, some, List, [], ◌∷◌, if◌then◌else◌,
  select, any, Text, codes, trim, is_blank, get_or_else,
}

-- What is thrown: an `Error` with its message, a text, or anything else.
pub data Thrown : Type 0 where
  an_error a_text : Text → Thrown
  a_value : Thrown

abbrev pub message_or : Text → Text → Text
message_or message fallback = if is_blank (trim message) then fallback else message

-- The fallback may be left out.
unfoldable pub get_error_message : Thrown → Option Text → Text
unfolding trim
get_error_message thrown fallback =
    let otherwise = get_or_else fallback (codes "Something went wrong.") in
    elim thrown [
      | an_error message ↦ message_or message otherwise
      | a_text message ↦ message_or message otherwise
      | a_value ↦ otherwise
    ]

pub data Outcome {ℓ} (A : Type ℓ) : Type ℓ where
  loaded : A → Outcome A
  rejected : Thrown → Outcome A

-- The states and the refs of the hook.
pub record AsyncData {ℓ} (A : Type ℓ) : Type ℓ where
  pub data_shown : A
  pub error : Option Text
  pub loading : Bool
  pub refreshing : Bool
  pub mounted : Bool
  pub request_id : ℕ

module _ {ℓ} {A : Type ℓ} where
  abbrev pub initial : A → AsyncData A
  initial initial_data = record {
    data_shown = initial_data;
    error = none;
    loading = true;
    refreshing = false;
    mounted = true;
    request_id = 0;
  }

  -- `run` up to the call of the loader.
  unfoldable pub begin_run : Bool → AsyncData A → AsyncData A
  begin_run is_refresh s =
      if is_refresh
      then record s { request_id = suc s.request_id; refreshing = true }
      else record s { request_id = suc s.request_id; loading = true }

  abbrev pub with_outcome : Option Text → Outcome A → AsyncData A → AsyncData A
  with_outcome fallback (loaded result) s = record s { data_shown = result; error = none }
  with_outcome fallback (rejected thrown) s = record s {
    error = some (get_error_message thrown fallback);
  }

  -- `run` from the end of the loader on, for the request with this id.
  unfoldable pub end_run : Option Text → ℕ → Outcome A → AsyncData A → AsyncData A
  end_run fallback id outcome s =
      if s.mounted && id == s.request_id
      then record (with_outcome fallback outcome s) { loading = false; refreshing = false }
      else s

  abbrev pub unmount : AsyncData A → AsyncData A
  unmount s = record s { mounted = false }

-- The page and the requests that have not ended.
pub record Page {ℓ} (A : Type ℓ) : Type ℓ where
  pub shown : AsyncData A
  pub pending : List ℕ

abbrev pub is_pending : ℕ → List ℕ → Bool
is_pending id pending = any (λ n. n == id) pending

abbrev pub without : ℕ → List ℕ → List ℕ
without id pending = select (λ n. not (n == id)) pending

module _ {ℓ} {A : Type ℓ} (fallback : Option Text) where
  -- A request begins, one that is pending ends, or the page is left.
  pub data Step : Page A → Page A → Type ℓ where
    begins :
        (p : Page A) (is_refresh : Bool)
        → Step p (record {
          shown = begin_run is_refresh p.shown;
          pending = suc p.shown.request_id ∷ p.pending;
        })
    ends :
        (p : Page A) (id : ℕ) (outcome : Outcome A)
        → is_pending id p.pending ≡ true
        → Step p
            (record { shown = end_run fallback id outcome p.shown; pending = without id p.pending })
    leaves : (p : Page A) → Step p (record p { shown = unmount p.shown })

  -- The first request begins when the page is opened.
  abbrev pub opened : A → Page A
  opened initial_data = record { shown = begin_run false (initial initial_data); pending = 1 ∷ [] }

  pub data Reach (p : Page A) : Page A → Type ℓ where
    here : Reach p p
    next : {q r : Page A} → Reach p q → Step q r → Reach p r

-- ===== src/Timer/Contest.antt =====
-- The server actions on the contest, admin-frontend/src/lib/actions/contest.ts, with their schemas,
-- admin-frontend/src/lib/validation/contest.ts. What the backend answers is an argument, and so is
-- `now_text`, the text of the present time.
use algo_test.Prelude.{
  ℕ, ◌==◌, Bool, String, Option, none, some, if◌then◌else◌, ltb, leb, get_or_else, Text, codes,
  trim, is_blank, length,
}
use algo_test.Clock.Types.{ContestStatus, not_started}
use algo_test.Timer.{AdminContestState, text_or, is_set}
use algo_test.Clock.Tick.{present}

-- The fields that `normalizeState` reads of an answer; a field that is null counts as absent.
pub record RawContest : Type 0 where
  pub title : Option String
  pub status : Option ContestStatus
  pub start_time : Option String
  pub end_time : Option String
  pub duration_seconds : Option ℕ
  pub freeze_minutes : Option ℕ
  pub paused_at : Option String
  pub remaining_seconds : Option ℕ
  pub elapsed_seconds : Option ℕ
  pub is_frozen : Option Bool
  pub require_fullscreen : Option Bool
  pub min_client_version : Option String
  pub enforce_binary_hash : Option Bool
  pub authorized_binary_hashes : Option String
  pub download_enabled : Option Bool
  pub server_time : Option String

-- `Number(x) || fallback`
abbrev pub number_or : Option ℕ → ℕ → ℕ
number_or none fallback = fallback
number_or (some n) fallback = if n == 0 then fallback else n

unfoldable pub normalize_state : String → RawContest → AdminContestState
normalize_state now_text raw = record {
  title = text_or raw.title "Labyrithm Session";
  status = get_or_else raw.status not_started;
  start_time = present raw.start_time;
  end_time = present raw.end_time;
  duration_seconds = number_or raw.duration_seconds 7200;
  freeze_minutes = number_or raw.freeze_minutes 30;
  paused_at = present raw.paused_at;
  remaining_seconds = number_or raw.remaining_seconds 0;
  elapsed_seconds = number_or raw.elapsed_seconds 0;
  is_frozen = is_set raw.is_frozen;
  require_fullscreen = some (is_set raw.require_fullscreen);
  min_client_version = some (text_or raw.min_client_version "0.2.0");
  enforce_binary_hash = some (is_set raw.enforce_binary_hash);
  authorized_binary_hashes = some (text_or raw.authorized_binary_hashes "");
  download_enabled = some (is_set raw.download_enabled);
  server_time = text_or raw.server_time now_text;
}

-- How a request ends: refused with an error, answered, or without an answer that can be read.
pub data ContestReply : Type 0 where
  contest_refused : Option String → ContestReply
  contest_answered : RawContest → ContestReply
  contest_thrown : Option String → ContestReply

-- An action gives the state, or throws with a message.
pub data ContestResult : Type 0 where
  contest_state : AdminContestState → ContestResult
  contest_error : String → ContestResult

-- What the actions have in common, from the reply on.
unfoldable pub contest_result : String → String → ContestReply → ContestResult
unfolding normalize_state
contest_result now_text fallback (contest_refused message) =
    contest_error (text_or message fallback)
contest_result now_text fallback (contest_answered raw) =
    contest_state (normalize_state now_text raw)
contest_result now_text fallback (contest_thrown message) =
    contest_error (get_or_else message fallback)

-- What `parseInt(text, 10)` gives.
pub data ParsedNumber : Type 0 where
  not_a_number : ParsedNumber
  natural below_zero : ℕ → ParsedNumber

pub record ContestSettings : Type 0 where
  pub title : String
  pub duration_minutes : ParsedNumber
  pub freeze_minutes : ParsedNumber
  pub require_fullscreen : Bool
  pub min_client_version : String
  pub enforce_binary_hash : Bool
  pub authorized_binary_hashes : String

-- The settings that pass the schema, as they are sent.
pub record ValidSettings : Type 0 where
  pub title : Text
  pub duration_minutes : ℕ
  pub freeze_minutes : ℕ
  pub require_fullscreen : Bool
  pub min_client_version : String
  pub enforce_binary_hash : Bool
  pub authorized_binary_hashes : String

-- The requests; those without a body are named by their path.
pub data ContestRequest : Type 0 where
  get_state : ContestRequest
  post : String → ContestRequest
  post_start post_extend : ℕ → ContestRequest
  put_settings : ValidSettings → ContestRequest

-- `z.number().min(low).max(high)`, for a number that may be missing.
abbrev pub number_in : ParsedNumber → ℕ → ℕ → String → String → String → Option ℕ × String
number_in not_a_number low high missing small great = (none, missing)
number_in (below_zero n) low high missing small great = (none, small)
number_in (natural n) low high missing small great =
    if ltb n low then (none, small) else if ltb high n then (none, great) else (some n, "")

unfoldable pub title_issue : Text → Option String
title_issue title =
    if is_blank title
    then some "Contest title is required"
    else if ltb 100 (length title)
    then some "Contest title must be 100 characters or less"
    else none

abbrev pub duration_of : ContestSettings → Option ℕ × String
duration_of settings =
    number_in settings.duration_minutes 1 525600 "Duration must be a number"
      "Contest duration must be at least 1 minute"
      "Contest duration cannot exceed 525,600 minutes (1 year)"

abbrev pub freeze_of : ContestSettings → Option ℕ × String
freeze_of settings =
    number_in settings.freeze_minutes 0 525600 "Freeze minutes must be a number"
      "Freeze minutes cannot be negative" "Freeze window cannot exceed contest duration"

pub data Validation : Type 0 where
  invalid : String → Validation
  valid : ValidSettings → Validation

-- The last test of the schema, once all fields have passed.
abbrev pub checked_settings : ContestSettings → ℕ → ℕ → Validation
checked_settings settings duration freeze =
    if leb freeze duration
    then valid (record {
      title = trim (codes settings.title);
      duration_minutes = duration;
      freeze_minutes = freeze;
      require_fullscreen = settings.require_fullscreen;
      min_client_version = settings.min_client_version;
      enforce_binary_hash = settings.enforce_binary_hash;
      authorized_binary_hashes = settings.authorized_binary_hashes;
    })
    else invalid "Freeze window cannot be longer than total contest duration"

-- `updateContestSettingsSchema`, with the message of the first issue.
unfoldable pub validate_settings : ContestSettings → Validation
unfolding title_issue trim
validate_settings settings = elim (title_issue (trim (codes settings.title))) [
  | some message ↦ invalid message
  | none ↦ elim (duration_of settings).0 [
    | none ↦ invalid (duration_of settings).1
    | some duration ↦ elim (freeze_of settings).0 [
      | none ↦ invalid (freeze_of settings).1
      | some freeze ↦ checked_settings settings duration freeze
    ]
  ]
]

module _ (now_text : String) (answer : ContestRequest → ContestReply) where
  unfoldable pub get_admin_contest_state_action : ContestResult
  unfolding contest_result
  get_admin_contest_state_action =
      contest_result now_text "Failed to fetch contest state" (answer get_state)

  unfoldable pub start_contest_action : Option ℕ → ContestResult
  unfolding contest_result
  start_contest_action duration_minutes =
      let minutes = get_or_else duration_minutes 0 in
      if ltb 525600 minutes
      then contest_error "Duration cannot exceed 525,600 minutes (1 year)"
      else contest_result now_text "Failed to start contest" (answer (post_start minutes))

  unfoldable pub extend_contest_action : ℕ → ContestResult
  unfolding contest_result
  extend_contest_action minutes =
      if ltb minutes 1
      then contest_error "Must extend by at least 1 minute"
      else if ltb 43200 minutes
      then contest_error "Cannot extend by more than 30 days"
      else contest_result now_text "Failed to extend contest duration"
          (answer (post_extend minutes))

  -- The actions that post to a path: pause, resume, reset, end, freeze and unfreeze.
  unfoldable pub post_contest_action : String → String → ContestResult
  unfolding contest_result
  post_contest_action path fallback = contest_result now_text fallback (answer (post path))

  unfoldable pub update_contest_settings_action : ContestSettings → ContestResult
  unfolding contest_result validate_settings
  update_contest_settings_action settings = elim (validate_settings settings) [
    | invalid message ↦ contest_error message
    | valid checked ↦
        contest_result now_text "Failed to update contest settings" (answer (put_settings checked))
  ]

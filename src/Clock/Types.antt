-- ===== src/Clock/Types.antt =====
-- competitor-frontend/src/types/contest.ts and CONTEST_STATUS of
-- competitor-frontend/src/lib/constants.ts, with the state of `ContestProvider`.
use algo_test.Prelude.{ℕ, String, Bool, List, Option, Text, [], ◌∷◌}

pub data ContestStatus : Type 0 where
  not_started running paused ended : ContestStatus

pub record ContestState : Type 0 where
  pub title : String
  pub status : ContestStatus
  pub start_time : Option String
  pub end_time : Option String
  pub duration_seconds : ℕ
  pub freeze_minutes : ℕ
  pub paused_at : Option String
  pub remaining_seconds : ℕ
  pub elapsed_seconds : ℕ
  pub is_frozen : Bool
  pub require_fullscreen : Option Bool
  pub download_enabled : Option Bool
  pub server_time : String

pub data AlertVariant : Type 0 where
  info warning destructive success : AlertVariant

pub record ContestAlert : Type 0 where
  pub id : Text
  pub title : Text
  pub description : Text
  pub variant : AlertVariant

pub record Threshold : Type 0 where
  pub seconds : ℕ
  pub label : String
  pub variant : AlertVariant

-- `CONTEST_THRESHOLDS_SECONDS`
abbrev pub contest_thresholds : List Threshold
contest_thresholds =
    record { seconds = 1800; label = "30 minutes"; variant = info }
    ∷ record { seconds = 900; label = "15 minutes"; variant = warning }
    ∷ record { seconds = 600; label = "10 minutes"; variant = warning }
    ∷ record { seconds = 300; label = "5 minutes"; variant = destructive }
    ∷ record { seconds = 60; label = "1 minute"; variant = destructive }
    ∷ []

-- What `ContestProvider` keeps in its state and its refs. `syncs` counts the calls of `refresh`
-- that a tick starts, `page_refreshes` those of `router.refresh`.
pub record ClockState : Type 0 where
  pub state : ContestState
  pub remaining_seconds : ℕ
  pub elapsed_seconds : ℕ
  pub starts_in_seconds : ℕ
  pub is_frozen : Bool
  pub alert_toast : Option ContestAlert
  pub previous_frozen : Bool
  pub fired_thresholds : List ℕ
  pub end_refresh_triggered : Bool
  pub syncs : ℕ
  pub page_refreshes : ℕ

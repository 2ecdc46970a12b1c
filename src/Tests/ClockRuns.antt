-- ===== src/Tests/ClockRuns.antt =====
-- A running round near its end.
use algo_test.Prelude.{false, none, some, []}
use algo_test.Clock.Types.{running, ContestState}
use algo_test.Clock.Tick.{Firing}

abbrev round : ContestState
round = record {
  title = "Round";
  status = running;
  start_time = some "start";
  end_time = some "end";
  duration_seconds = 15;
  freeze_minutes = 0;
  paused_at = none;
  remaining_seconds = 15;
  elapsed_seconds = 0;
  is_frozen = false;
  require_fullscreen = none;
  download_enabled = none;
  server_time = "start";
}

abbrev unfired : Firing
unfired = record { fired = []; toast = none }

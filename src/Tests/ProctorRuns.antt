-- ===== src/Tests/ProctorRuns.antt =====
-- The verdict on an account and an agent.
use algo_test.Prelude.{◌≡◌, ◌↔◌, true, false, none, some, [], ◌∷◌}
use algo_test.Proctor.Types.{AccessMode, ActiveClient, ProctorSelfStatus, AgentLocalStatus}
use algo_test.Proctor.Resolve.{resolve}
use algo_test.Proctor.Resolve.Verdict.{AllowsSubmissions, resolve-AllowsSubmissions_iff}

abbrev account : ProctorSelfStatus
account = record {
  allowed = true;
  code = none;
  exempt = false;
  active_client = ActiveClient.desktop_client;
  access_mode = AccessMode.desktop;
  allowed_modes = AccessMode.desktop ∷ [];
  last_ping_at = none;
  seconds_since_ping = 3;
  remedy = none;
  loopback_port = some 47616;
}

abbrev agent : AgentLocalStatus
agent = record {
  agent_version = "1.0";
  boot_id = "b";
  seq = 1;
  uptime_s = 60;
  enrolled = true;
  revoked = true;
  healthy = true;
  starting = false;
  seconds_since_ack = none;
  buffered = 0;
  attest_nonce = "n";
  loopback_port = 47616;
  support_code = "";
  status = "ok";
}

resolve-AllowsSubmissions_iff_example :
    ((resolve (some account) (some agent)).submissions_allowed ≡ true)
    ↔ AllowsSubmissions (some account) (some agent)
resolve-AllowsSubmissions_iff_example = resolve-AllowsSubmissions_iff (some account) (some agent)

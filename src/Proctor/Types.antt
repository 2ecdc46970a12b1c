-- ===== src/Proctor/Types.antt =====
-- competitor-frontend/src/types/proctor.ts: the server's answer, the agent's, and the page's state.
use algo_test.Prelude.{ℕ, String, Bool, List, Option, Text}

pub data AccessMode : Type 0 where
  desktop web_with_agent web_only : AccessMode

pub data ActiveClient : Type 0 where
  desktop_client web_client : ActiveClient

pub record ProctorSelfStatus : Type 0 where
  pub allowed : Bool
  pub code : Option String
  pub exempt : Bool
  pub active_client : ActiveClient
  pub access_mode : AccessMode
  pub allowed_modes : List AccessMode
  pub last_ping_at : Option String
  pub seconds_since_ping : ℕ
  pub remedy : Option String
  pub loopback_port : Option ℕ

pub record AgentLocalStatus : Type 0 where
  pub agent_version : String
  pub boot_id : String
  pub seq : ℕ
  pub uptime_s : ℕ
  pub enrolled : Bool
  pub revoked : Bool
  pub healthy : Bool
  pub starting : Bool
  pub seconds_since_ack : Option ℕ
  pub buffered : ℕ
  pub attest_nonce : String
  pub loopback_port : ℕ
  pub support_code : String
  pub status : String

pub record ProctorState : Type 0 where
  pub submissions_allowed : Bool
  pub exempt : Bool
  pub code : Option String
  pub remedy : Option Text
  pub access_mode : Option AccessMode
  pub allowed_modes : List AccessMode
  pub seconds_since_ping : ℕ
  pub local : Option AgentLocalStatus
  pub attest_nonce : Option String
  pub server_reachable : Bool
  pub starting : Bool
  pub resolved : Bool

pub data LocalAccessState : Type 0 where
  not_required checking prompt requesting granted denied unavailable : LocalAccessState

-- The browser's permission for local network access; absent where the browser has none.
pub data PermissionState : Type 0 where
  granted prompt denied : PermissionState

-- What one `refresh` is given by the server and the browser.
pub record RefreshInput : Type 0 where
  pub self : Option ProctorSelfStatus
  pub exhaustive : Bool
  pub request_access : Bool
  pub permission : Option PermissionState
  pub permission_after : Option PermissionState
  pub probe : ℕ → Option AgentLocalStatus

-- What the provider keeps, with the ports that have been asked.
pub record ProctorPage : Type 0 where
  pub state : ProctorState
  pub local_access_state : LocalAccessState
  pub known_port : Option ℕ
  pub asked : List ℕ

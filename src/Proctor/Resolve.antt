-- ===== src/Proctor/Resolve.antt =====
-- competitor-frontend/src/components/portal/proctor-provider.tsx and
-- competitor-frontend/src/lib/proctor.ts: the page's verdict on submitting.
pub mod Verdict
use algo_test.Prelude.{
  ℕ, ◌==◌, Bool, true, false, ◌&&◌, not, String, Option, none, some, List, [], ◌∷◌, ◌++◌,
  if◌then◌else◌, get_or_else, is_some, or_else, str_eq, Text, codes, decimal,
}
use algo_test.Proctor.Types.{
  AccessMode, web_only, desktop, web_with_agent, ProctorSelfStatus, AgentLocalStatus, ProctorState,
}

abbrev pub is_web_only : AccessMode → Bool
is_web_only web_only = true
is_web_only _ = false

abbrev pub initial_proctor_state : ProctorState
initial_proctor_state = record {
  submissions_allowed = true;
  exempt = false;
  code = none;
  remedy = none;
  access_mode = none;
  allowed_modes = [];
  seconds_since_ping = 0;
  local = none;
  attest_nonce = none;
  server_reachable = true;
  starting = false;
  resolved = false;
}

-- The `base` of `resolve`. (`resolved` is set by its callers.)
abbrev base_state : Option ProctorSelfStatus → Option AgentLocalStatus → ProctorState
base_state self local = record {
  submissions_allowed = true;
  exempt = elim self [ none ↦ false | some s ↦ s.exempt ];
  code = none;
  remedy = none;
  access_mode = elim self [ none ↦ none | some s ↦ some s.access_mode ];
  allowed_modes = elim self [ none ↦ [] | some s ↦ s.allowed_modes ];
  seconds_since_ping = elim self [
    | some s ↦ s.seconds_since_ping
    | none ↦ elim local [ none ↦ 0 | some l ↦ get_or_else l.seconds_since_ack 0 ]
  ];
  local = local;
  attest_nonce = elim local [ none ↦ none | some l ↦ some l.attest_nonce ];
  server_reachable = is_some self;
  starting = elim local [ none ↦ false | some l ↦ l.starting ];
  resolved = false;
}

abbrev locked : ProctorState → String → Text → ProctorState
locked base code remedy = record base {
  submissions_allowed = false;
  code = some code;
  remedy = some remedy;
}

abbrev not_enrolled_remedy : Text
not_enrolled_remedy =
    codes "The proctor client is not enrolled on this machine. Open it and sign in once."

abbrev revoked_remedy : Text
revoked_remedy =
    codes
      "This machine's proctor enrolment was revoked. Re-enrol it from the tray, or ask an organizer."

abbrev starting_remedy : Text
starting_remedy =
    codes "The proctor client is starting up. This clears on its own within a few seconds."

abbrev unreachable_remedy : ℕ → Text
unreachable_remedy buffered =
    if buffered == 0
    then codes "The proctor client cannot reach the contest server. Check your network connection."
    else codes "The proctor client cannot reach the contest server and is holding "
      ++ (decimal buffered
          ++ (codes " report"
              ++ ((if buffered == 1 then [] else codes "s")
                  ++ codes ". Check your network connection.")))

abbrev not_attested_remedy : Text
not_attested_remedy =
    codes
      "This browser cannot verify the proctor client on the same computer. Open the contestant window from the proctor client, or start the client on this machine."

abbrev missing_remedy : Text
missing_remedy =
    codes
      "No proctor client has reported, and this page could not reach one on this machine. Open the client and sign in once — if it is already running, reload this page."

-- What the agent on this machine says against submitting, if anything.
unfoldable pub local_refusal : ProctorState → AgentLocalStatus → Option ProctorState
local_refusal base l =
    if not l.enrolled
    then some (locked base "AGENT_MISSING" not_enrolled_remedy)
    else if l.revoked
    then some (locked base "ENROLLMENT_REVOKED" revoked_remedy)
    else if l.starting
    then some (locked base "AGENT_STARTING" starting_remedy)
    else if not l.healthy
    then some (locked base "AGENT_UNREACHABLE" (unreachable_remedy l.buffered))
    else none

abbrev is_missing_code : Option String → Bool
is_missing_code none = false
is_missing_code (some c) = str_eq c "AGENT_MISSING"

-- The end of `resolve`, where the agent says nothing against submitting.
unfoldable pub server_verdict :
    ProctorState → Option ProctorSelfStatus → Option AgentLocalStatus → ProctorState
server_verdict base none local = record base { submissions_allowed = true }
server_verdict base (some self) local =
    if not (is_some local) && self.allowed && not (is_web_only self.access_mode)
    then locked base "NOT_ATTESTED" not_attested_remedy
    else if not (is_some local) && not self.allowed && is_missing_code self.code
    then record base { submissions_allowed = false; code = self.code; remedy = some missing_remedy }
    else record base {
      submissions_allowed = self.allowed;
      code = self.code;
      remedy = elim self.remedy [ none ↦ none | some r ↦ some (codes r) ];
    }

abbrev pub exempt_or_web_only : Option ProctorSelfStatus → Bool
exempt_or_web_only none = false
exempt_or_web_only (some self) =
    if self.exempt then true else self.allowed && is_web_only self.access_mode

unfoldable pub resolve : Option ProctorSelfStatus → Option AgentLocalStatus → ProctorState
unfolding local_refusal server_verdict
resolve self local =
    let base = base_state self local in
    if exempt_or_web_only self then record base { submissions_allowed = true } else elim local [
      | none ↦ server_verdict base self none
      | some l ↦ elim (local_refusal base l) [
        | some refusal ↦ refusal
        | none ↦ server_verdict base self (some l)
      ]
    ]

-- The state that the server's render seeds.
unfoldable pub seed : Option ProctorSelfStatus → ProctorState
unfolding resolve
seed none = initial_proctor_state
seed (some self) =
    let state = record (resolve (some self) none) { resolved = exempt_or_web_only (some self) } in
    if is_missing_code state.code
    then record state {
      remedy = elim self.remedy [ none ↦ state.remedy | some r ↦ some (codes r) ];
    }
    else state

-- `contestLocked`
unfoldable pub contest_locked : ProctorState → Bool
contest_locked state = state.resolved && not state.submissions_allowed && not state.exempt

-- `proctorLocksContest`, which the server's render uses.
unfoldable pub proctor_locks_contest : Option ProctorSelfStatus → Bool
proctor_locks_contest none = false
proctor_locks_contest (some self) = if self.exempt then false else not self.allowed

-- The poll's delay in milliseconds.
unfoldable pub poll_delay : ProctorState → ℕ
poll_delay state =
    if state.resolved && (if not state.submissions_allowed then true else state.starting)
    then 5000
    else 10000

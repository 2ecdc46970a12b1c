-- ===== src/Proctor/Loopback.antt =====
-- competitor-frontend/src/lib/proctor.ts: looking for the agent on the loopback ports, and
-- `refresh` of competitor-frontend/src/components/portal/proctor-provider.tsx. The network is the
-- argument `probe`, what the agent at a port answers; the ports that are asked are recorded.
pub mod Ports
pub mod Access
use algo_test.Prelude.{
  ℕ, ◌==◌, Bool, true, false, ◌&&◌, ◌||◌, not, Option, none, some, List, [], ◌∷◌, ◌++◌,
  if◌then◌else◌, select, is_some, or_else,
}
use algo_test.Proctor.Types.{
  ProctorSelfStatus, AgentLocalStatus, LocalAccessState, not_required, unavailable, PermissionState,
  RefreshInput, ProctorPage,
}
use algo_test.Proctor.Resolve.{exempt_or_web_only, resolve}

abbrev pub loopback_ports : List ℕ
loopback_ports = 47615 ∷ 47616 ∷ 47617 ∷ 47618 ∷ 47619 ∷ []

-- A port that is absent or 0 counts as none.
abbrev pub known : Option ℕ → Option ℕ
known none = none
known (some p) = if p == 0 then none else some p

unfoldable pub ordered_ports : Option ℕ → List ℕ
ordered_ports preferred = elim (known preferred) [
  | none ↦ loopback_ports
  | some p ↦ p ∷ select (λ port. not (port == p)) loopback_ports
]

module _ {ℓ} {A : Type ℓ} (probe : ℕ → Option A) where
  -- The loop over the ports, with the ports asked.
  unfoldable pub first_answer : List ℕ → Option A × List ℕ
  first_answer [] = (none, [])
  first_answer (port ∷ ports) =
      let rest = first_answer ports in
      elim (probe port) [ some status ↦ (some status, port ∷ []) | none ↦ (rest.0, port ∷ rest.1) ]

  unfoldable pub read_local_agent : Option ℕ → Bool → Option A × List ℕ
  unfolding first_answer ordered_ports
  read_local_agent preferred exhaustive =
      let scan = first_answer (ordered_ports preferred) in
      elim (known preferred) [
        | none ↦ scan
        | some p ↦ if exhaustive then scan else elim (probe p) [
          | some status ↦ (some status, p ∷ [])
          | none ↦ (scan.0, p ∷ scan.1)
        ]
      ]

-- `stopLocalAgent`, where `stop` says whether the agent at a port answers the request well.
unfoldable pub stop_local_agent : (ℕ → Bool) → Option ℕ → Bool
unfolding first_answer ordered_ports
stop_local_agent stop preferred =
    is_some
      (first_answer {A = Unit {0}} (λ port. if stop port then some tt else none)
        (ordered_ports preferred)).0

-- `needsLocalProbe`
abbrev pub needs_local_probe : Option ProctorSelfStatus → Bool
needs_local_probe none = false
needs_local_probe (some self) = not (exempt_or_web_only (some self))

-- The state that keeps the page from probing, unless the contestant has asked for it.
abbrev pub held_back : Bool → Option PermissionState → Option LocalAccessState
held_back false (some PermissionState.prompt) = some LocalAccessState.prompt
held_back false (some PermissionState.denied) = some LocalAccessState.denied
held_back _ _ = none

abbrev access_after : Option AgentLocalStatus → Option PermissionState → LocalAccessState
access_after (some local) _ = LocalAccessState.granted
access_after none (some PermissionState.denied) = LocalAccessState.denied
access_after none _ = unavailable

-- `local?.loopback_port` or else `self?.loopback_port`, where 0 counts as none.
abbrev port_of : Option ProctorSelfStatus → Option AgentLocalStatus → Option ℕ → Option ℕ
port_of self local old =
    let reported : Option ℕ = elim self [
      | none ↦ old
      | some s ↦ or_else (known s.loopback_port) old
    ] in
    elim local [ none ↦ reported | some l ↦ or_else (known (some l.loopback_port)) reported ]

-- The last steps of `refresh`, with the agent that was found and the ports asked for it.
unfoldable pub conclude :
    RefreshInput → LocalAccessState → Option AgentLocalStatus × List ℕ → ProctorPage → ProctorPage
conclude input access found page = record {
  state = record (resolve input.self found.0) { resolved = true };
  local_access_state = access;
  known_port = port_of input.self found.0 page.known_port;
  asked = page.asked ++ found.1;
}

unfoldable pub refresh : RefreshInput → ProctorPage → ProctorPage
unfolding conclude
refresh input page =
    let found = read_local_agent input.probe page.known_port input.exhaustive in
    if not (needs_local_probe input.self)
    then conclude input not_required (none, []) page
    else elim (held_back input.request_access input.permission) [
      | some access ↦ conclude input access (none, []) page
      | none ↦ conclude input (access_after found.0 input.permission_after) found page
    ]

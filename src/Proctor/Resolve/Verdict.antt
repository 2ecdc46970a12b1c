-- ===== src/Proctor/Resolve/Verdict.antt =====
-- When the page lets a contestant submit, and how that fits the server's own gate.
use algo_test.Prelude.{◌≡◌, ◌↔◌, ◌⊎◌, Bool, true, false, ◌&&◌, not, Option, none, some, arith}
use algo_test.Proctor.Types.{ProctorSelfStatus, AgentLocalStatus}
use algo_test.Proctor.Resolve.{
  exempt_or_web_only, resolve, seed, contest_locked, proctor_locks_contest,
}

-- The agent answered, is enrolled, not revoked, up and healthy.
abbrev pub is_usable : Option AgentLocalStatus → Bool
is_usable none = false
is_usable (some l) = l.enrolled && (not l.revoked && (not l.starting && l.healthy))

abbrev pub AllowsSubmissions : Option ProctorSelfStatus → Option AgentLocalStatus → Type 0
AllowsSubmissions none local = (local ≡ none) ⊎ (is_usable local ≡ true)
AllowsSubmissions (some self) local =
    (exempt_or_web_only (some self) ≡ true) ⊎ ((self.allowed ≡ true) × (is_usable local ≡ true))

-- The page allows submissions exactly when the account is exempt, or allowed to submit from a
-- browser alone, or the server allows it and the agent on this machine is usable. While the server
-- does not answer, it allows them unless an agent answers that is not usable.
pub resolve-AllowsSubmissions_iff :
    (self : Option ProctorSelfStatus) (local : Option AgentLocalStatus)
    → ((resolve self local).submissions_allowed ≡ true) ↔ AllowsSubmissions self local
unfolding resolve
resolve-AllowsSubmissions_iff none none = ground arith
resolve-AllowsSubmissions_iff none (some l) = ground arith
resolve-AllowsSubmissions_iff (some self) none = ground (arith)
resolve-AllowsSubmissions_iff (some self) (some l) = ground arith

-- Where the server's render locks the contest, so does the page once it is resolved, whatever the
-- agent on this machine says.
pub contest_locked_of_server :
    (self : Option ProctorSelfStatus) (local : Option AgentLocalStatus)
    → proctor_locks_contest self ≡ true
    → contest_locked (record (resolve self local) { resolved = true }) ≡ true
unfolding resolve contest_locked proctor_locks_contest
contest_locked_of_server none local h = cc
contest_locked_of_server (some self) none h = ground arith
contest_locked_of_server (some self) (some l) h = ground arith

-- The state that the server's render seeds locks nothing: it is resolved only for an account that
-- is exempt or may submit from a browser alone.
pub contest_locked-seed :
    (self : Option ProctorSelfStatus)
    → (contest_locked (seed self) ≡ false) × ((seed self).resolved ≡ exempt_or_web_only self)
unfolding seed contest_locked
contest_locked-seed none = ground arith
contest_locked-seed (some self) = ground arith

-- ===== src/Browse/Standings/Refreshed.antt =====
-- The refreshes of the standings, one event after the other.
use algo_test.Prelude.{
  ℕ, ◌+◌, ◌-◌, ◌≤◌, ◌<◌, ◌≡◌, ◌↔◌, ◌==◌, refl, sym, ◌∙◌, Bool, true, false, Bool-cases, inl, inr,
  Option, none, some, String, List, [], ◌∷◌, length, arith, if◌then◌else◌, not, ◌&&◌, ◌||◌,
}
use algo_test.Browse.Standings.{
  LeaderboardEntry, Standings, first_standings, begin_refresh, end_refresh, tick, result_tick,
  has_id,
}

-- The standings and the number of server actions that have not ended.
pub record Board : Type 0 where
  pub standings : Standings
  pub pending : ℕ

-- A tick of the interval or of the visibility, a new result or review, or the end of an action.
pub data BoardEvent : Type 0 where
  ticks : Bool → Bool → BoardEvent
  result_comes : Bool → Option String → Option String → BoardEvent
  answers : ℕ → Option (List LeaderboardEntry) → BoardEvent

abbrev called : Standings × Bool → ℕ → Board
called (s, is_called) pending = record {
  standings = s;
  pending = if is_called then pending + 1 else pending;
}

-- An action can end only while one is pending.
unfoldable pub turn : BoardEvent → Board → Board
turn (ticks locked visible) b = called (tick locked visible b.standings) b.pending
turn (result_comes locked result review) b =
    called (result_tick locked result review b.standings) b.pending
turn (answers now answer) b =
    if b.pending == 0
    then b
    else record { standings = end_refresh now answer b.standings; pending = b.pending - 1 }

abbrev pub opened : List LeaderboardEntry → Board
opened leaderboard = record { standings = first_standings leaderboard; pending = 0 }

unfoldable pub turns : List BoardEvent → Board → Board
unfolding turn
turns [] b = b
turns (event ∷ events) b = turns events (turn event b)

-- At most one action is pending, and the page shows that it is refreshing exactly then; once there
-- are standings, there always are.
abbrev IsSingle : Board → Type 0
IsSingle b =
    (b.standings.in_flight ≡ true → b.pending ≡ 1)
    × (b.standings.in_flight ≡ false → b.pending ≡ 0)
    × (b.standings.refreshing ≡ b.standings.in_flight)
    × (0 < length b.standings.leaderboard)

begin_refresh-IsSingle :
    (b : Board) → IsSingle b → IsSingle (called (begin_refresh b.standings) b.pending)
unfolding begin_refresh
begin_refresh-IsSingle b (busy_one, free_none, shown, some_left) =
    elim (Bool-cases b.standings.in_flight) [
      | inl busy ↦
          rw (begin_refresh, busy) (λ h. busy_one busy, λ h. absurd (cc h), shown ∙ busy, some_left)
      | inr free ↦
          rw (begin_refresh, free)
            (λ h. omega (arith, free_none free), λ h. absurd (cc h), refl, some_left)
    ]

-- A refresh that is tried under a condition.
maybe-IsSingle :
    (c : Bool) (b : Board)
    → IsSingle b
    → IsSingle (called (if c then begin_refresh b.standings else (b.standings, false)) b.pending)
maybe-IsSingle true b single = begin_refresh-IsSingle b single
maybe-IsSingle false b single = single

with_answer-filled :
    (now : ℕ) (answer : Option (List LeaderboardEntry)) (s : Standings)
    → 0 < length s.leaderboard
    → 0 < length (end_refresh now answer s).leaderboard
unfolding end_refresh
with_answer-filled now none s some_left = some_left
with_answer-filled now (some []) s some_left = some_left
with_answer-filled now (some (entry ∷ next)) s some_left = omega arith

end_refresh-free :
    (now : ℕ) (answer : Option (List LeaderboardEntry)) (s : Standings)
    → ((end_refresh now answer s).in_flight ≡ false)
      × ((end_refresh now answer s).refreshing ≡ false)
unfolding end_refresh
end_refresh-free now answer s = (refl, refl)

turn-IsSingle : (event : BoardEvent) (b : Board) → IsSingle b → IsSingle (turn event b)
unfolding turn
turn-IsSingle (ticks locked visible) b single = maybe-IsSingle (not locked && visible) b single
turn-IsSingle (result_comes locked result review) b single =
    maybe-IsSingle (not locked && (has_id result || has_id review)) b single
turn-IsSingle (answers now answer) b (busy_one, free_none, shown, some_left) =
    elim (Bool-cases (b.pending == 0)) [
      | inl idle ↦ rw (turn, idle) (busy_one, free_none, shown, some_left)
      | inr going ↦
          let (free, quiet) = end_refresh-free now answer b.standings in
          rw (turn, going)
            (
              λ h. absurd (cc (sym free ∙ h)),
              λ h. elim (Bool-cases b.standings.in_flight) [
                | inl busy ↦ omega (arith, busy_one busy)
                | inr idle ↦ omega (arith, free_none idle)
              ],
              quiet ∙ sym free,
              with_answer-filled now answer b.standings some_left,
            )
    ]

turns-IsSingle : (events : List BoardEvent) (b : Board) → IsSingle b → IsSingle (turns events b)
unfolding turns
turns-IsSingle [] b single = single
turns-IsSingle (event ∷ events) b single =
    turns-IsSingle events (turn event b) (turn-IsSingle event b single)

-- From standings that are not empty, whatever ticks, results and answers come, failures and empty
-- answers included: at most one server action is pending at a time, the page shows that it is
-- refreshing exactly while one is, and the standings never become empty.
pub turns-refreshed :
    (events : List BoardEvent) (entry : LeaderboardEntry) (rest : List LeaderboardEntry)
    → let b = turns events (opened (entry ∷ rest)) in
      (b.pending ≤ 1)
      × ((b.pending ≡ 1) ↔ (b.standings.refreshing ≡ true))
      × (0 < length b.standings.leaderboard)
turns-refreshed events entry rest =
    let (busy_one, free_none, shown, some_left) =
      turns-IsSingle events (opened (entry ∷ rest))
        (λ h. absurd (cc h), λ h. refl, refl, omega arith) in
    elim (Bool-cases (turns events (opened (entry ∷ rest))).standings.in_flight) [
      | inl busy ↦
          (omega (arith, busy_one busy), (λ h. shown ∙ busy, λ h. busy_one busy), some_left)
      | inr free ↦ (
        omega (arith, free_none free),
        (λ h. absurd (omega (arith, h, free_none free)), λ h. absurd (cc (sym h ∙ shown ∙ free))),
        some_left,
      )
    ]

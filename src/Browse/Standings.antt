-- ===== src/Browse/Standings.antt =====
-- competitor-frontend/src/components/leaderboard/leaderboard-client.tsx: the standings, which are
-- refreshed, searched, sorted and cut into pages. `localeCompare` is a parameter, and so are the
-- times and what the server answers.
pub mod Refreshed
use algo_test.Prelude.{
  ℕ, Bool, true, false, ◌&&◌, ◌||◌, not, ◌==◌, String, str_eq, filled, Option, none, some, List, [],
  ◌∷◌, Text, codes, trim, includes, ltb, select, find, if◌then◌else◌,
}
use algo_test.Browse.{sort_by, lower, current_items}

-- competitor-frontend/src/types/leaderboard.ts
pub record LeaderboardEntry : Type 0 where
  pub rank : ℕ
  pub team_id : String
  pub team_name : String
  pub total_score : ℕ
  pub problems_solved : ℕ
  pub last_submission_at : Option String

pub data LeaderboardSortOption : Type 0 where
  rank_asc score_desc score_asc solved_desc name_asc : LeaderboardSortOption

-- The states and the ref of the refresh.
pub record Standings : Type 0 where
  pub leaderboard : List LeaderboardEntry
  pub refreshing : Bool
  pub updated_at : Option ℕ
  pub in_flight : Bool

abbrev pub first_standings : List LeaderboardEntry → Standings
first_standings leaderboard = record {
  leaderboard = leaderboard;
  refreshing = false;
  updated_at = none;
  in_flight = false;
}

-- `refresh` up to the call of the server action, with whether it is called.
unfoldable pub begin_refresh : Standings → Standings × Bool
begin_refresh s =
    if s.in_flight then (s, false) else (record s { in_flight = true; refreshing = true }, true)

abbrev pub with_answer : ℕ → Option (List LeaderboardEntry) → Standings → Standings
with_answer now none s = s
with_answer now (some []) s = s
with_answer now (some (entry ∷ next)) s = record s {
  leaderboard = entry ∷ next;
  updated_at = some now;
}

-- `refresh` from the end of the server action on, which may throw.
unfoldable pub end_refresh : ℕ → Option (List LeaderboardEntry) → Standings → Standings
end_refresh now answer s = record (with_answer now answer s) {
  in_flight = false;
  refreshing = false;
}

-- The interval and the change of visibility, unless the portal is locked.
abbrev pub tick : Bool → Bool → Standings → Standings × Bool
tick locked visible s = if not locked && visible then begin_refresh s else (s, false)

abbrev has_id : Option String → Bool
has_id none = false
has_id (some id) = filled id

-- The effect on the last result and the last review, by their submissions' ids.
abbrev pub result_tick : Bool → Option String → Option String → Standings → Standings × Bool
result_tick locked result review s =
    if not locked && (has_id result || has_id review) then begin_refresh s else (s, false)

-- What is shown of them.
pub record StandingsView : Type 0 where
  pub search : Text
  pub sort_by_option : LeaderboardSortOption
  pub current_page : ℕ
  pub page_size : ℕ

unfoldable pub filtered_leaderboard : Text → List LeaderboardEntry → List LeaderboardEntry
unfolding trim includes
filtered_leaderboard search leaderboard =
    select (λ entry. includes (lower (codes entry.team_name)) (trim (lower search))) leaderboard

module _ (locale_before : Text → Text → Bool) where
  unfoldable pub comes_before : LeaderboardSortOption → LeaderboardEntry → LeaderboardEntry → Bool
  comes_before rank_asc a b = ltb a.rank b.rank
  comes_before score_desc a b = ltb a.rank b.rank
  comes_before score_asc a b = ltb b.rank a.rank
  comes_before solved_desc a b =
      if a.problems_solved == b.problems_solved
      then ltb a.rank b.rank
      else ltb b.problems_solved a.problems_solved
  comes_before name_asc a b = locale_before (codes a.team_name) (codes b.team_name)

  unfoldable pub sorted_leaderboard : StandingsView → List LeaderboardEntry → List LeaderboardEntry
  unfolding filtered_leaderboard comes_before
  sorted_leaderboard view leaderboard =
      sort_by (comes_before view.sort_by_option) (filtered_leaderboard view.search leaderboard)

  unfoldable pub shown_leaderboard : StandingsView → List LeaderboardEntry → List LeaderboardEntry
  unfolding sorted_leaderboard
  shown_leaderboard view leaderboard =
      current_items view.current_page view.page_size (sorted_leaderboard view leaderboard)

-- The standing of the user's own team, by its id or its name.
abbrev pub user_standing : String → String → List LeaderboardEntry → Option LeaderboardEntry
user_standing team_id team_name leaderboard =
    find
      (λ entry.
        (filled team_id && str_eq entry.team_id team_id)
        || (filled team_name && str_eq entry.team_name team_name))
      leaderboard

-- ===== src/Tests/BrowseRuns.antt =====
-- Windows of pages, the lists of the portal, and pages that load.
use algo_test.Prelude.{
  All, ◌≤◌, ◌<◌, ◌≡◌, ◌↔◌, refl, Bool, true, false, inl, none, some, List, [], ◌∷◌, arith, codes,
  length, Text,
}
use mathlib.Core.List.{Perm}
use algo_test.Feed.Types.{SubmissionItem}
use algo_test.Pages.Window.{widen, page_window, first_slots}
use algo_test.Pages.Window.Ascending.{widen-enough}
use algo_test.Pages.Window.Shown.{IsWindow, page_window-IsWindow}
use algo_test.Browse.Challenges.{
  Problem, ChallengeView, all_statuses, difficulty_asc, easy, hard, filtered_problems,
  sorted_problems,
}
use algo_test.Browse.Challenges.Ranks.{sorted_problems-by_difficulty}
use algo_test.Browse.Submissions.{
  SubmissionView, first_view, filtered_submissions, sorted_submissions, shown_submissions, newest,
  all_verdicts,
}
use algo_test.Browse.Submissions.Ordered.{AreInOrder, IsOfVerdict, sorted_submissions-AreInOrder}
use algo_test.Browse.Submissions.Shown.{shown_submissions-filled}
use algo_test.Browse.Standings.{LeaderboardEntry}
use algo_test.Browse.Standings.Refreshed.{
  BoardEvent, ticks, answers, turns, opened, turns-refreshed,
}
use algo_test.Tests.Data.{listed}

-- Twelve pages, the sixth chosen, in seven slots.
widen-enough_example : widen 100 6 12 5 1 (first_slots 6 12) ≡ widen 12 6 12 5 1 (first_slots 6 12)
widen-enough_example = widen-enough 12 100 6 12 5 1 (first_slots 6 12) (omega arith) (omega arith)

page_window-IsWindow_example : IsWindow 6 12 7 (page_window 6 12 7)
page_window-IsWindow_example = page_window-IsWindow 6 12 7 (omega arith) (omega arith) (omega arith)

-- No text comes before another.
abbrev never_before : Text → Text → Bool
never_before s t = false

abbrev hard_problem : Problem
hard_problem = record {
  id = "p1";
  slug = codes "maze";
  title = codes "Maze";
  difficulty = hard;
  points = 300;
  time_limit_ms = 2000;
  memory_limit_mb = 256;
  statement = codes "Find the way out.";
  constraints = codes "n < 1000";
}

abbrev problems : List Problem
problems = hard_problem ∷ record hard_problem { id = "p2"; difficulty = easy } ∷ []

abbrev by_difficulty : ChallengeView
by_difficulty = record {
  search = codes "maze";
  status_filter = all_statuses;
  difficulty_filter = none;
  sort_by_option = difficulty_asc;
}

sorted_problems-by_difficulty_example :
    sorted_problems never_before by_difficulty [] problems
    ≡ filtered_problems by_difficulty [] problems
sorted_problems-by_difficulty_example =
    sorted_problems-by_difficulty never_before by_difficulty [] problems (inl refl)

abbrev submissions : List SubmissionItem
submissions = listed ∷ record listed { submission_id = "s2"; timestamp = 900 } ∷ []

sorted_submissions-AreInOrder_example :
    Perm
      (sorted_submissions never_before first_view submissions)
      (filtered_submissions first_view submissions)
    × All (IsOfVerdict all_verdicts) (sorted_submissions never_before first_view submissions)
    × AreInOrder never_before newest (sorted_submissions never_before first_view submissions)
sorted_submissions-AreInOrder_example =
    sorted_submissions-AreInOrder never_before (λ s t h. refl) (λ s t u h k. refl) first_view
      submissions

-- A page that does not exist.
abbrev third_page : SubmissionView
third_page = record first_view { current_page = 3 }

some_left : 0 < length (filtered_submissions third_page submissions)
unfolding filtered_submissions
some_left = omega arith

shown_submissions-filled_example :
    (0 < length (shown_submissions never_before third_page submissions))
    × (length (shown_submissions never_before third_page submissions) ≤ 15)
shown_submissions-filled_example =
    shown_submissions-filled never_before third_page submissions (omega arith) (omega arith)
      some_left

abbrev leader : LeaderboardEntry
leader = record {
  rank = 1;
  team_id = "t1";
  team_name = "alpha";
  total_score = 300;
  problems_solved = 3;
  last_submission_at = none;
}

-- Two ticks, of which the second finds the first still running, and an empty answer.
abbrev board_events : List BoardEvent
board_events =
    ticks false true
    ∷ ticks false true
    ∷ answers 10 (some [])
    ∷ ticks false true
    ∷ answers 20 none
    ∷ []

turns-refreshed_example :
    let b = turns board_events (opened (leader ∷ [])) in
    (b.pending ≤ 1)
    × ((b.pending ≡ 1) ↔ (b.standings.refreshing ≡ true))
    × (0 < length b.standings.leaderboard)
turns-refreshed_example = turns-refreshed board_events leader []

-- ===== src/Tests/TeamRuns.antt =====
-- A roster of teams.
use algo_test.Prelude.{[], ◌∷◌, codes, Text}
use algo_test.Teams.{with_members, parse_teams_input, handle_submit}
use algo_test.Teams.Selection.{AreNewTeams, handle_submit-AreNewTeams}

abbrev roster : Text
roster = codes "alpha,ada\nbeta,bob\nAlpha,eve\ngamma,kim"

handle_submit-AreNewTeams_example : AreNewTeams (codes "beta" ∷ []) (
    handle_submit (record {
      items = parse_teams_input roster with_members (codes "beta" ∷ []);
      selected = 0 ∷ 1 ∷ 2 ∷ [];
    }))
handle_submit-AreNewTeams_example =
    handle_submit-AreNewTeams roster with_members (codes "beta" ∷ []) (0 ∷ 1 ∷ 2 ∷ [])

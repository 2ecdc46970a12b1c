-- ===== src/Users/Assigned.antt =====
-- The calls that an assignment to a team makes, and what the page shows of their answers.
use algo_test.Prelude.{
  ◌≡◌, not, refl, true, false, Bool-cases, Option-cases, inl, inr, Option, none, some, String, Text,
  filled, truthy, get_or_else, List, [], ◌∷◌, ◌++◌, if◌then◌else◌, ap, ◌∙◌, append_assoc,
  append-nil, codes, ◌+◌,
}
use algo_test.Auth.Session.{SessionUser}
use algo_test.Users.{
  AdminUsers, MemberCall, removes, adds, Assignment, is_same_team, handle_assign_team, add_to_team,
  remove_and_add, success, problem, assigned, not_assigned,
}

-- The calls that take a member from the one team to the other, where there is one.
abbrev pub plan : Option String → String → List MemberCall
plan previous target =
    (if truthy previous then removes (get_or_else previous "") ∷ [] else [])
    ++ (if filled target then adds target ∷ [] else [])

-- The calls that are made: up to the first that is refused.
unfoldable pub attempted : (MemberCall → Option Text) → List MemberCall → List MemberCall
attempted answer [] = []
attempted answer (call ∷ calls) =
    let rest = attempted answer calls in
    call ∷ elim (answer call) [ none ↦ rest | some message ↦ [] ]

-- The message of the first call that is refused, if one is.
unfoldable pub refusal : (MemberCall → Option Text) → List MemberCall → Option Text
refusal answer [] = none
refusal answer (call ∷ calls) =
    let rest = refusal answer calls in
    elim (answer call) [ none ↦ rest | some message ↦ some message ]

-- What the page shows after the calls.
abbrev pub shown_after : Option Text → String → AdminUsers → AdminUsers
shown_after none target s = record s {
  assign_team_target = none;
  notice =
      some (
        success (codes (if filled target then "Team assignment updated" else "Removed from team")));
  refreshes = s.refreshes + 1;
  pending = false;
}
shown_after (some message) target s = record s { notice = some (problem message); pending = false }

shown_after-pending :
    (message : Option Text) (target : String) (s : AdminUsers)
    → shown_after message target (record s { pending = true }) ≡ shown_after message target s
shown_after-pending none target s = refl
shown_after-pending (some message) target s = refl

add_to_team-attempted :
    (answer : MemberCall → Option Text) (target : String) (s : AdminUsers) (calls : List MemberCall)
    → let planned = if filled target then adds target ∷ [] else [] in
      add_to_team answer target s calls ≡ record {
        page = shown_after (refusal answer planned) target s;
        calls = calls ++ attempted answer planned;
      }
unfolding attempted refusal
add_to_team-attempted answer target s calls =
    elim (filled target)
      as (λ real.
        let planned = if real then adds target ∷ [] else [] in
        ◌≡◌ {A = Assignment}
          (if not real then record { page = assigned target s; calls = calls } else record {
            page = elim (answer (adds target)) [
              | none ↦ assigned target s
              | some message ↦ not_assigned message s
            ];
            calls = calls ++ adds target ∷ [];
          })
          (record {
            page = shown_after (refusal answer planned) target s;
            calls = calls ++ attempted answer planned;
          })) [
            | false ↦ rw (append-nil calls) refl
            | true ↦ elim (Option-cases (answer (adds target))) [
              | inl taken ↦ rw taken refl
              | inr (message, refused) ↦ rw refused refl
            ]
          ]

remove_and_add-attempted :
    (answer : MemberCall → Option Text) (previous : Option String) (target : String)
    (s : AdminUsers) (calls : List MemberCall)
    → remove_and_add answer previous target s calls ≡ record {
      page = shown_after (refusal answer (plan previous target)) target s;
      calls = calls ++ attempted answer (plan previous target);
    }
unfolding attempted refusal
remove_and_add-attempted answer previous target s calls = elim (Bool-cases (truthy previous)) [
  | inr absent ↦ rw absent (add_to_team-attempted answer target s calls)
  | inl present ↦
      let removal = removes (get_or_else previous "") in
      elim (Option-cases (answer removal)) [
        | inl taken ↦
            rw (present, taken)
              (add_to_team-attempted answer target s (calls ++ removal ∷ [])
                ∙ rw (append_assoc calls (removal ∷ []) _) refl)
        | inr (message, refused) ↦ rw (present, refused) refl
      ]
]

handle_assign_team-other :
    (answer : MemberCall → Option Text) (target : String) (user : SessionUser) (a : Assignment)
    → a.page.assign_team_target ≡ some user
    → is_same_team user.team_id target ≡ false
    → handle_assign_team answer target a
      ≡ remove_and_add answer user.team_id target (record a.page { pending = true }) a.calls
unfolding handle_assign_team
handle_assign_team-other answer target user a chosen other =
    rw (handle_assign_team, chosen, other) refl

-- When a competitor is assigned to another team, or to none, the page asks the backend to remove
-- the competitor from the team of before, if there is one, and then to add the competitor to the new
-- one, if there is one, up to the first call that is refused. If none is refused, the dialog is
-- closed, a success is shown and the page is loaded anew; else the message of the refusal is shown,
-- and the dialog and the loaded data stay, also where the removal was taken.
pub handle_assign_team-attempted :
    (answer : MemberCall → Option Text) (target : String) (user : SessionUser) (a : Assignment)
    → a.page.assign_team_target ≡ some user
    → is_same_team user.team_id target ≡ false
    → let planned = plan user.team_id target in
      ((handle_assign_team answer target a).calls ≡ a.calls ++ attempted answer planned)
      × ((handle_assign_team answer target a).page
          ≡ shown_after (refusal answer planned) target a.page)
handle_assign_team-attempted answer target user a chosen other =
    let planned = plan user.team_id target in
    let run =
      handle_assign_team-other answer target user a chosen other
      ∙ remove_and_add-attempted answer user.team_id target (record a.page { pending = true })
          a.calls in
    (
      ap (λ (b : Assignment). b.calls) run,
      ap (λ (b : Assignment). b.page) run
          ∙ shown_after-pending (refusal answer planned) target a.page,
    )

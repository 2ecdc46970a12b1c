-- ===== src/Teams/Groups.antt =====
-- The teams that the mode `with_members` accepts, and those of both modes.
use algo_test.Prelude.{
  ◌≡◌, refl, sym, true, false, ◌||◌, List, [], ◌∷◌, Text, to_lower, has_text, is_blank, map,
  Bool-cases, inl, inr, arith, All, text_eq, text_eq_iff,
}
use algo_test.Teams.{
  BulkTeamMode, names_only, with_members, TeamMember, ParsedTeamItem, TeamGroup, add_member,
  group_lines, group_item, team_name_of, member_of, items_of, parse_teams_input,
}
use algo_test.Teams.Keys.{AreDistinct, AreMissing}
use algo_test.Teams.Names.{keys_of, HasFewMembers, name_items-AreNew, name_items-HasFewMembers}

abbrev group_keys : List TeamGroup → List Text
group_keys groups = map (λ g. g.key) groups

-- The groups have different keys, each the lower case of its team's name.
abbrev AreKeyed : List TeamGroup → Type 0
AreKeyed groups =
    AreDistinct (group_keys groups) × All (λ g. g.key ≡ map to_lower g.original_name) groups

has_text-add_member :
    (name key : Text) (joined : List TeamMember) (groups : List TeamGroup)
    → has_text key (group_keys (add_member name joined groups))
      ≡ (text_eq (map to_lower name) key || has_text key (group_keys groups))
unfolding add_member
has_text-add_member name key joined [] = refl
has_text-add_member name key joined (g ∷ groups) =
    ground
      (arith, has_text-add_member name key joined groups, text_eq_iff g.key (map to_lower name))

add_member-AreKeyed :
    (name : Text) (joined : List TeamMember) (groups : List TeamGroup)
    → AreKeyed groups
    → AreKeyed (add_member name joined groups)
unfolding add_member
add_member-AreKeyed name joined [] k = ((refl, tt), (refl, tt))
add_member-AreKeyed name joined (g ∷ groups) ((apart, d), (e, es)) =
    elim (Bool-cases (text_eq g.key (map to_lower name))) [
      | inl same ↦ rw same ((apart, d), (e, es))
      | inr other ↦
          let (d', es') = add_member-AreKeyed name joined groups (d, es) in
          rw other (
            (
              ground (
                arith,
                has_text-add_member name g.key joined groups,
                apart,
                text_eq_iff g.key (map to_lower name),
                text_eq_iff (map to_lower name) g.key,
              ),
              d',
            ),
            (e, es'),
          )
    ]

group_lines-AreKeyed :
    (groups : List TeamGroup) (lines : List Text)
    → AreKeyed groups
    → AreKeyed (group_lines groups lines)
unfolding group_lines
group_lines-AreKeyed groups [] k = k
group_lines-AreKeyed groups (line ∷ lines) k = elim (Bool-cases (is_blank (team_name_of line))) [
  | inl e ↦ rw e (group_lines-AreKeyed groups lines k)
  | inr e ↦ rw e (
      group_lines-AreKeyed (add_member (team_name_of line) (member_of line) groups) lines
        (add_member-AreKeyed (team_name_of line) (member_of line) groups k))
]

-- A valid item of a group has its key, which does not exist, and few members.
group_item_lem :
    (existing : List Text) (g : TeamGroup)
    → (((group_item existing g).name ≡ g.original_name)
        × ((group_item existing g).is_valid ≡ true → has_text g.key existing ≡ false))
      × HasFewMembers (group_item existing g)
unfolding group_item
group_item_lem existing g = ground arith

has_text-keys_of :
    (existing : List Text) (key : Text) (groups : List TeamGroup)
    → All (λ g. g.key ≡ map to_lower g.original_name) groups
    → has_text key (group_keys groups) ≡ false
    → has_text key (keys_of (map (group_item existing) groups)) ≡ false
unfolding keys_of
has_text-keys_of existing key [] h lacks = refl
has_text-keys_of existing key (g ∷ groups) (e, es) lacks =
    let rest : has_text key (group_keys groups) ≡ false = ground arith in
    let later = has_text-keys_of existing key groups es rest in
    elim (Bool-cases (group_item existing g).is_valid) [
      | inl valid ↦ rw (valid, (group_item_lem existing g).0.0, sym e) (ground (arith, later))
      | inr refused ↦ rw refused later
    ]

keys_of-AreImportable :
    (existing : List Text) (groups : List TeamGroup)
    → AreKeyed groups
    → AreDistinct (keys_of (map (group_item existing) groups))
      × AreMissing existing (keys_of (map (group_item existing) groups))
unfolding keys_of
keys_of-AreImportable existing [] k = (tt, tt)
keys_of-AreImportable existing (g ∷ groups) ((apart, d), (e, es)) =
    let (d', m) = keys_of-AreImportable existing groups (d, es) in
    elim (Bool-cases (group_item existing g).is_valid) [
      | inl valid ↦
          rw (valid, (group_item_lem existing g).0.0, sym e)
            (
              (has_text-keys_of existing g.key groups es apart, d'),
              ((group_item_lem existing g).0.1 valid, m),
            )
      | inr refused ↦ rw refused (d', m)
    ]

group_item-HasFewMembers :
    (existing : List Text) (groups : List TeamGroup)
    → All HasFewMembers (map (group_item existing) groups)
group_item-HasFewMembers existing [] = tt
group_item-HasFewMembers existing (g ∷ groups) =
    ((group_item_lem existing g).1, group_item-HasFewMembers existing groups)

abbrev pub AreImportable : List Text → List ParsedTeamItem → Type 0
AreImportable existing items =
    AreDistinct (keys_of items) × AreMissing existing (keys_of items) × All HasFewMembers items

items_of-AreImportable :
    (mode : BulkTeamMode) (existing lines : List Text)
    → AreImportable existing (items_of mode existing lines)
unfolding items_of
items_of-AreImportable names_only existing lines =
    let (d, m, _) = name_items-AreNew existing [] lines in
    (d, m, name_items-HasFewMembers existing [] lines)
items_of-AreImportable with_members existing lines =
    let (d, m) =
      keys_of-AreImportable existing (group_lines [] lines)
        (group_lines-AreKeyed [] lines (tt, tt)) in
    (d, m, group_item-HasFewMembers existing (group_lines [] lines))

-- In both modes the teams that the text gives as valid have names that differ in lower case from
-- one another and from the names that exist, and each has at most 3 members.
pub parse_teams_input-AreImportable :
    (text : Text) (mode : BulkTeamMode) (existing : List Text)
    → AreImportable existing (parse_teams_input text mode existing)
unfolding parse_teams_input
parse_teams_input-AreImportable text mode existing = items_of-AreImportable mode existing _

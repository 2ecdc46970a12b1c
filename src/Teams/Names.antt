-- ===== src/Teams/Names.antt =====
-- The names that the mode `names_only` accepts.
use algo_test.Prelude.{
  ◌≡◌, true, false, List, [], ◌∷◌, Text, to_lower, has_text, map, if◌then◌else◌, Bool-cases, inl,
  inr, arith, All, ◌≤◌, length,
}
use algo_test.Teams.{ParsedTeamItem, name_item, name_items, team_name_of, seen_after}
use algo_test.Teams.Keys.{AreDistinct, AreMissing, AreMissing-cons}

-- The names of the valid items, in lower case.
unfoldable pub keys_of : List ParsedTeamItem → List Text
keys_of [] = []
keys_of (item ∷ items) =
    let keys = keys_of items in if item.is_valid then map to_lower item.name ∷ keys else keys

abbrev pub HasFewMembers : ParsedTeamItem → Type 0
HasFewMembers item = item.is_valid ≡ true → length item.members ≤ 3

name_item-valid :
    (existing seen : List Text) (name : Text)
    → (name_item existing seen name).is_valid ≡ true
    → (has_text (map to_lower (name_item existing seen name).name) existing ≡ false)
      × (has_text (map to_lower (name_item existing seen name).name) seen ≡ false)
unfolding name_item
name_item-valid existing seen name h = ground arith

abbrev AreNew : List Text → List Text → List Text → Type 0
AreNew existing seen keys = AreDistinct keys × AreMissing existing keys × AreMissing seen keys

keys_of-AreNew :
    (existing seen : List Text) (item : ParsedTeamItem) (items : List ParsedTeamItem)
    → (item.is_valid ≡ true
        → (has_text (map to_lower item.name) existing ≡ false)
          × (has_text (map to_lower item.name) seen ≡ false))
    → AreNew existing (seen_after item seen) (keys_of items)
    → AreNew existing seen (keys_of (item ∷ items))
unfolding keys_of
keys_of-AreNew existing seen item items fresh (d, m, n) = elim (Bool-cases item.is_valid) [
  | inl e ↦
      let missing : AreMissing (map to_lower item.name ∷ seen) (keys_of items) = rw e at n in
      let (apart, rest) = AreMissing-cons (map to_lower item.name) seen (keys_of items) missing in
      rw e ((apart, d), ((fresh e).0, m), ((fresh e).1, rest))
  | inr e ↦ let same : AreMissing seen (keys_of items) = rw e at n in rw e (d, m, same)
]

pub name_items-AreNew :
    (existing seen lines : List Text)
    → AreNew existing seen (keys_of (name_items existing seen lines))
unfolding name_items
name_items-AreNew existing seen [] = unfold keys_of in (tt, tt, tt)
name_items-AreNew existing seen (line ∷ lines) =
    let item = name_item existing seen (team_name_of line) in
    keys_of-AreNew existing seen item (name_items existing (seen_after item seen) lines)
      (name_item-valid existing seen (team_name_of line))
      (name_items-AreNew existing (seen_after item seen) lines)

name_item-HasFewMembers :
    (existing seen : List Text) (name : Text) → HasFewMembers (name_item existing seen name)
unfolding name_item
name_item-HasFewMembers existing seen name h = ground arith

pub name_items-HasFewMembers :
    (existing seen lines : List Text) → All HasFewMembers (name_items existing seen lines)
unfolding name_items
name_items-HasFewMembers existing seen [] = tt
name_items-HasFewMembers existing seen (line ∷ lines) = (
  name_item-HasFewMembers existing seen (team_name_of line),
  name_items-HasFewMembers existing (seen_after (name_item existing seen (team_name_of line)) seen)
      lines,
)

-- ===== src/History.antt =====
-- competitor-frontend/src/hooks/use-history.ts: the snapshots of a contestant's code, with
-- `getLanguage` of competitor-frontend/src/lib/languages.ts. The list is what `useState` keeps;
-- the same list is written to the browser's storage.
pub mod Kept
pub mod Merge
use algo_test.Prelude.{
  to_lower, ℕ, ◌+◌, ◌==◌, Bool, true, false, ◌&&◌, ◌||◌, not, Option, none, some, List, [], ◌∷◌,
  ◌++◌, map, if◌then◌else◌, Text, codes, trim, text_eq, is_blank, leb, ltb, any, find, take,
  or_else, get_or_else, is_some,
}

pub data SnapshotTrigger : Type 0 where
  autosave ran submitted : SnapshotTrigger

pub record Snapshot : Type 0 where
  pub id : Text
  pub at : ℕ
  pub trigger : SnapshotTrigger
  pub language : Text
  pub code : Text
  pub verdict : Option Text
  pub score : Option ℕ
  pub max_score : Option ℕ
  pub submission_id : Option Text

-- What `record` is told of a submission, besides the code.
pub record Extra : Type 0 where
  pub verdict : Option Text
  pub score : Option ℕ
  pub max_score : Option ℕ
  pub submission_id : Option Text

abbrev pub max_history_snapshots : ℕ
max_history_snapshots = 50

-- `LANGUAGE_ALIASES[id] ?? id`
unfoldable pub alias_of : Text → Text
alias_of id =
    if text_eq id (codes "c++") || text_eq id (codes "g++")
    then codes "cpp"
    else if text_eq id (codes "py") || text_eq id (codes "python3")
    then codes "python"
    else if text_eq id (codes "javascript") || text_eq id (codes "node")
    then codes "js"
    else if text_eq id (codes "rs")
    then codes "rust"
    else id

-- The ids of `LANGUAGES`.
abbrev pub language_ids : List Text
language_ids =
    codes "cpp" ∷ codes "c" ∷ codes "java" ∷ codes "python" ∷ codes "js" ∷ codes "rust" ∷ []

unfoldable pub normalize_language_id : Text → Text
unfolding alias_of trim
normalize_language_id language =
    let id = alias_of (map to_lower (trim language)) in
    if any (λ known. text_eq known id) language_ids then id else language

abbrev pub is_trigger : SnapshotTrigger → SnapshotTrigger → Bool
is_trigger autosave autosave = true
is_trigger ran ran = true
is_trigger submitted submitted = true
is_trigger _ _ = false

-- `snapshot.submissionId === id`
abbrev pub is_of : Text → Snapshot → Bool
is_of id s = elim s.submission_id [ none ↦ false | some own ↦ text_eq own id ]

-- A submission id counts as absent when it is empty.
abbrev pub present_id : Option Text → Option Text
present_id none = none
present_id (some id) = if is_blank id then none else some id

-- The snapshot of a submission with what is told of it.
abbrev pub with_extra : Extra → Snapshot → Snapshot
with_extra extra s = record s {
  verdict = or_else extra.verdict s.verdict;
  score = or_else extra.score s.score;
  max_score = or_else extra.max_score s.max_score;
}

-- The first snapshot of the submission is changed; `none` when there is none.
unfoldable pub update_first : (Snapshot → Snapshot) → Text → List Snapshot → Option (List Snapshot)
update_first f id [] = none
update_first f id (s ∷ rest) =
    let later = update_first f id rest in
    if is_of id s
    then some (f s ∷ rest)
    else elim later [ none ↦ none | some kept ↦ some (s ∷ kept) ]

-- `lastAutosave && lastAutosave.code === code`
abbrev pub is_autosaved : Text → List Snapshot → Bool
is_autosaved code current = elim (find (λ s. is_trigger s.trigger autosave) current) [
  | none ↦ false
  | some s ↦ text_eq s.code code
]

-- `current[0]?.code === code && current[0]?.trigger === trigger`
abbrev pub is_on_top : SnapshotTrigger → Text → List Snapshot → Bool
is_on_top trigger code [] = false
is_on_top trigger code (s ∷ rest) = text_eq s.code code && is_trigger s.trigger trigger

-- `record` from the test for a repeated snapshot on; `id` and `now` are drawn anew.
unfoldable pub add_snapshot :
    Text → ℕ → SnapshotTrigger → Text → Text → Extra → List Snapshot → List Snapshot
unfolding normalize_language_id
add_snapshot id now trigger language code extra current =
    if is_trigger trigger autosave && is_autosaved code current
    then current
    else if is_on_top trigger code current && not (is_some (present_id extra.submission_id))
    then current
    else take max_history_snapshots (
        record {
          id = id;
          at = now;
          trigger = trigger;
          language = normalize_language_id language;
          code = code;
          verdict = extra.verdict;
          score = extra.score;
          max_score = extra.max_score;
          submission_id = extra.submission_id;
        }
        ∷ current)

-- The updated list, or else the list with a snapshot added.
abbrev pub record_of : Option (List Snapshot) → List Snapshot → List Snapshot
record_of none added = added
record_of (some updated) added = updated

unfoldable pub record_snapshot :
    Text → ℕ → SnapshotTrigger → Text → Text → Extra → List Snapshot → List Snapshot
unfolding add_snapshot update_first
record_snapshot id now trigger language code extra current =
    let added = add_snapshot id now trigger language code extra current in
    elim (present_id extra.submission_id) [
      | none ↦ added
      | some of ↦ record_of (update_first (with_extra extra) of current) added
    ]

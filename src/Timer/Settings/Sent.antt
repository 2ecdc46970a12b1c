-- ===== src/Timer/Settings/Sent.antt =====
-- Which settings are sent when the dialog is saved.
use algo_test.Prelude.{
  filled, Option, Bool-cases, inl, inr, ℕ, ◌/◌, ◌==◌, ◌≡◌, refl, ap, sym, ◌∙◌, Bool, true, false,
  String, none, some, List, [], ◌∷◌, Text, decimal, digits, trim_start, is_blank, is_digit,
  is_space, arith,
}
use algo_test.Prelude.Decimal.{read_decimal-decimal, digits-decimal, decimal-cons}
use algo_test.Timer.{TimerState, text_or, is_set, sync_server_state}
use algo_test.Timer.Contest.{RawContest, number_or, normalize_state, natural}
use algo_test.Timer.Settings.{
  initial_timer, open_settings, Edit, edit_settings, edit_title, edit_duration, edit_freeze,
  edit_fullscreen, edit_enforce_hash, edit_min_version, edit_authorized_hashes, Turn, edited,
  polled, turns, parse_int, signed, settings_of,
}

digit-not-space :
    (d : ℕ) → is_digit d ≡ true → (is_space d ≡ false) × ((d == 45) ≡ false) × ((d == 43) ≡ false)
digit-not-space d h = (ground (arith, h), ground (arith, h), ground (arith, h))

trim_start-digit : (d : ℕ) (rest : Text) → is_digit d ≡ true → trim_start (d ∷ rest) ≡ d ∷ rest
unfolding trim_start
trim_start-digit d rest h = rw ((digit-not-space d h).0) refl

parse_int-digit :
    (d : ℕ) (rest : Text)
    → is_digit d ≡ true
    → parse_int (d ∷ rest) ≡ signed natural (digits (d ∷ rest))
unfolding parse_int
parse_int-digit d rest digit =
    let (space, minus, plus) = digit-not-space d digit in
    rw (parse_int, trim_start-digit d rest digit, minus, plus) refl

-- A printed number is read back.
parse_int-decimal : (n : ℕ) → parse_int (decimal n) ≡ natural n
parse_int-decimal n =
    let (d, rest, e, digit) = decimal-cons n in
    let filled : is_blank (decimal n) ≡ false = ap is_blank e in
    ap parse_int e
    ∙ parse_int-digit d rest digit
    ∙ ap (λ t. signed natural (digits t)) (sym e)
    ∙ ap (signed natural) (digits-decimal n)
    ∙ rw (filled, read_decimal-decimal n) refl

-- A default that has been filled in stays.
text_or-default : (fallback : String) → text_or (some fallback) fallback ≡ fallback
text_or-default fallback = elim (Bool-cases (filled fallback)) [
  | inl real ↦ rw real refl
  | inr empty ↦ rw empty refl
]

text_or-twice :
    (o : Option String) (fallback : String)
    → text_or (some (text_or o fallback)) fallback ≡ text_or o fallback
text_or-twice none fallback = text_or-default fallback
text_or-twice (some s) fallback = elim (Bool-cases (filled s)) [
  | inl real ↦ rw (real, real) refl
  | inr empty ↦ rw empty (text_or-default fallback)
]

-- If the dialog is opened and saved unchanged, then what is handed to the server action is what the
-- backend said of the contest, with the duration in whole minutes, and with a default for each field
-- that the backend did not fill: the title "Labyrithm Session", 2 hours where it said 0 or nothing, a
-- freeze of 30 minutes where it said 0 or nothing, no full screen, the version 0.2.0, no check of
-- the hash, and no hashes.
pub settings_of-open_settings :
    (now_text : String) (raw : RawContest)
    → let sent = settings_of (open_settings (initial_timer (normalize_state now_text raw))) in
      (sent.title ≡ text_or raw.title "Labyrithm Session")
      × (sent.duration_minutes ≡ natural (number_or raw.duration_seconds 7200 / 60))
      × (sent.freeze_minutes ≡ natural (number_or raw.freeze_minutes 30))
      × (sent.require_fullscreen ≡ is_set raw.require_fullscreen)
      × (sent.min_client_version ≡ text_or raw.min_client_version "0.2.0")
      × (sent.enforce_binary_hash ≡ is_set raw.enforce_binary_hash)
      × (sent.authorized_binary_hashes ≡ text_or raw.authorized_binary_hashes "")
unfolding settings_of open_settings initial_timer normalize_state
settings_of-open_settings now_text raw = (
  refl,
  parse_int-decimal _,
  parse_int-decimal _,
  refl,
  text_or-twice raw.min_client_version "0.2.0",
  refl,
  text_or-twice raw.authorized_binary_hashes "",
)

-- The title that the last edit of it leaves, and the full screen that the last edit or answer does.
abbrev edited_title : Edit → String → String
edited_title (edit_title title) before = title
edited_title _ before = before

abbrev edited_fullscreen : Edit → Bool → Bool
edited_fullscreen (edit_fullscreen test) before = test
edited_fullscreen _ before = before

abbrev pub last_title : List Turn → String → String
last_title [] before = before
last_title (edited edit ∷ rest) before = last_title rest (edited_title edit before)
last_title (polled answer ∷ rest) before = last_title rest before

abbrev pub last_fullscreen : List Turn → Bool → Bool
last_fullscreen [] before = before
last_fullscreen (edited edit ∷ rest) before = last_fullscreen rest (edited_fullscreen edit before)
last_fullscreen (polled none ∷ rest) before = last_fullscreen rest before
last_fullscreen (polled (some c) ∷ rest) before = last_fullscreen rest (is_set c.require_fullscreen)

edit_settings-fields :
    (edit : Edit) (s : TimerState)
    → ((edit_settings edit s).settings_title ≡ edited_title edit s.settings_title)
      × ((edit_settings edit s).settings_fullscreen ≡ edited_fullscreen edit s.settings_fullscreen)
unfolding edit_settings
edit_settings-fields (edit_title title) s = (refl, refl)
edit_settings-fields (edit_duration text) s = (refl, refl)
edit_settings-fields (edit_freeze text) s = (refl, refl)
edit_settings-fields (edit_fullscreen test) s = (refl, refl)
edit_settings-fields (edit_enforce_hash test) s = (refl, refl)
edit_settings-fields (edit_min_version text) s = (refl, refl)
edit_settings-fields (edit_authorized_hashes text) s = (refl, refl)

-- Whatever is edited and answered while the dialog is open: what is sent is the title of its last
-- edit, but for the full screen it is what the last edit says only if no answer of the backend has
-- come since; otherwise it is what the last answer says.
pub settings_of-turns :
    (steps : List Turn) (s : TimerState)
    → ((settings_of (turns steps s)).title ≡ last_title steps s.settings_title)
      × ((settings_of (turns steps s)).require_fullscreen
          ≡ last_fullscreen steps s.settings_fullscreen)
unfolding settings_of turns sync_server_state
settings_of-turns [] s = (refl, refl)
settings_of-turns (edited edit ∷ rest) s =
    let (title, screen) = edit_settings-fields edit s in
    let (titles, screens) = settings_of-turns rest (edit_settings edit s) in
    (titles ∙ ap (last_title rest) title, screens ∙ ap (last_fullscreen rest) screen)
settings_of-turns (polled none ∷ rest) s = settings_of-turns rest s
settings_of-turns (polled (some c) ∷ rest) s = settings_of-turns rest (sync_server_state (some c) s)

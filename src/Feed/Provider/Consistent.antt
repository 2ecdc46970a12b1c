-- ===== src/Feed/Provider/Consistent.antt =====
-- The tabs that the provider keeps agree: no finished submission is listed as active, each
-- unfinished one is, and the table of updates stays bounded.
use algo_test.Prelude.{
  ℕ, ◌≤◌, ◌≡◌, refl, Bool, true, false, ◌||◌, ◌&&◌, not, String, Option, some, none, [], ◌∷◌, inl,
  inr, arith, if◌then◌else◌, str_eq, str_eq_iff, filled, length, Map, get, put, delete, get-put,
  get-delete, length-put-le, All, Bool-cases, ltb,
}
use algo_test.Feed.Types.{SubmissionStatusResponse, ActiveSubmission}
use algo_test.Feed.Progress.{should_apply_submission_progress}
use algo_test.Feed.Provider.{
  FeedState, evict, is_live, active_of, show_progress, apply_progress, show_review, handle_event,
}

abbrev Updates : Type 0
Updates = Map SubmissionStatusResponse

-- Every key is a text that is not empty.
abbrev pub HasFilledKeys : Updates → Type 0
HasFilledKeys = All (λ e. filled e.0 ≡ true)

-- What the table of active submissions says of one whose last update is known.
abbrev pub Agrees : Option SubmissionStatusResponse → Option ActiveSubmission → Type 0
Agrees none a = Unit
Agrees (some r) none = is_live r.status ≡ false
Agrees (some r) (some a) = (is_live r.status ≡ true) × (a.status ≡ r.status)

pub record IsConsistent (s : FeedState) : Type 0 where
  pub agrees : (id : String) → Agrees (get id s.latest) (get id s.active_submissions)
  pub keys : HasFilledKeys s.latest
  pub bounded : length s.latest ≤ 256

module _ {ℓ} {V : Type ℓ} where
  length-delete-le : (k : String) (m : Map V) → length (delete k m) ≤ length m
  unfolding delete
  length-delete-le k [] = omega arith
  length-delete-le k ((j, w) ∷ m) = ground (arith, length-delete-le k m)

put-HasFilledKeys :
    (k : String) (r : SubmissionStatusResponse) (m : Updates)
    → filled k ≡ true
    → HasFilledKeys m
    → HasFilledKeys (put k r m)
unfolding put
put-HasFilledKeys k r [] h hs = (h, tt)
put-HasFilledKeys k r ((j, w) ∷ m) h (g, hs) = ground (arith, put-HasFilledKeys k r m h hs)

delete-HasFilledKeys : (k : String) (m : Updates) → HasFilledKeys m → HasFilledKeys (delete k m)
unfolding delete
delete-HasFilledKeys k [] hs = tt
delete-HasFilledKeys k ((j, w) ∷ m) (g, hs) = ground (arith, delete-HasFilledKeys k m hs)

evict-HasFilledKeys : (m : Updates) → HasFilledKeys m → HasFilledKeys (evict m)
unfolding evict
evict-HasFilledKeys [] hs = tt
evict-HasFilledKeys ((j, w) ∷ m) hs = ground (arith, delete-HasFilledKeys j ((j, w) ∷ m) hs)

length-evict : (m : Updates) → HasFilledKeys m → length m ≤ 257 → length (evict m) ≤ 256
unfolding evict delete
length-evict [] hs h = omega arith
length-evict ((j, w) ∷ m) (g, hs) h = ground (arith, str_eq_iff j j, length-delete-le j m)

module _ (o : Option SubmissionStatusResponse) (a : Option ActiveSubmission) where
  if-none-Agrees : (b : Bool) → Agrees o a → Agrees (if b then none else o) a
  if-none-Agrees true h = tt
  if-none-Agrees false h = h

  if-some-Agrees :
      (b : Bool) (r : SubmissionStatusResponse) (new : Option ActiveSubmission)
      → Agrees (some r) new
      → Agrees o a
      → Agrees (if b then some r else o) (if b then new else a)
  if-some-Agrees true r new k h = k
  if-some-Agrees false r new k h = h

-- Dropping an update only forgets.
evict-Agrees :
    (id : String) (m : Updates) (a : Option ActiveSubmission)
    → Agrees (get id m) a
    → Agrees (get id (evict m)) a
unfolding evict
evict-Agrees id [] a h = h
evict-Agrees id ((j, w) ∷ m) a h = elim (Bool-cases (ltb 256 (length ((j, w) ∷ m)) && filled j)) [
  | inl e ↦ rw (e, get-delete) (if-none-Agrees _ a (str_eq j id) h)
  | inr e ↦ rw e h
]

module _ (r : SubmissionStatusResponse) (s : FeedState) where
  -- The new update with what the table of active submissions then holds.
  recorded-Agrees :
      (id : String) (new a : Option ActiveSubmission)
      → Agrees (some r) new
      → Agrees (get id s.latest) a
      → Agrees
          (get id (evict (put r.submission_id r s.latest)))
          (if str_eq r.submission_id id then new else a)
  recorded-Agrees id new a k h =
      evict-Agrees id (put r.submission_id r s.latest) _
        (rw get-put (if-some-Agrees _ a (str_eq r.submission_id id) r new k h))

  show_progress-Agrees :
      (id : String)
      → Agrees (get id s.latest) (get id s.active_submissions)
      → Agrees (get id (show_progress r s).latest) (get id (show_progress r s).active_submissions)
  unfolding show_progress
  show_progress-Agrees id h = elim (Bool-cases (is_live r.status)) [
    | inl live ↦
        rw (live, get-put r.submission_id id (active_of r)) (recorded-Agrees id _ _ (live, refl) h)
    | inr over ↦
        rw (over, get-delete r.submission_id id s.active_submissions)
          (recorded-Agrees id _ _ over h)
  ]

  latest-show_progress : (show_progress r s).latest ≡ evict (put r.submission_id r s.latest)
  unfolding show_progress
  latest-show_progress = ground arith

  show_progress-IsConsistent :
      filled r.submission_id ≡ true → IsConsistent s → IsConsistent (show_progress r s)
  show_progress-IsConsistent named c = record {
    agrees = λ id. show_progress-Agrees id (c.agrees id);
    keys = rw latest-show_progress (evict-HasFilledKeys _ recorded);
    bounded = rw latest-show_progress (
        length-evict _ recorded
          (omega (arith, length-put-le r.submission_id r s.latest, c.bounded)));
  }
    where
      recorded : HasFilledKeys (put r.submission_id r s.latest)
      recorded = put-HasFilledKeys r.submission_id r s.latest named c.keys

if-IsConsistent :
    (b : Bool) (s t : FeedState)
    → IsConsistent s
    → (b ≡ false → IsConsistent t)
    → IsConsistent (if b then s else t)
if-IsConsistent true s t c k = c
if-IsConsistent false s t c k = k refl

module _ (date_parse : String → Option ℕ) (r : SubmissionStatusResponse) (s : FeedState) where
  -- An update of a submission, applied or not, leaves the state consistent.
  pub apply_progress-IsConsistent : IsConsistent s → IsConsistent (apply_progress date_parse r s)
  unfolding apply_progress
  apply_progress-IsConsistent c =
      if-IsConsistent _ s (show_progress r s) c
        λ counted. show_progress-IsConsistent r s (named counted) c
    where
      named :
          (not (filled r.submission_id)
              || not (should_apply_submission_progress date_parse (get r.submission_id s.latest) r))
            ≡ false
          → filled r.submission_id ≡ true
      named h = ground arith

  -- So does an event of the stream, a review included.
  pub handle_event-IsConsistent : IsConsistent s → IsConsistent (handle_event date_parse r s)
  unfolding handle_event
  handle_event-IsConsistent c = if-IsConsistent _ s _ c λ _.
      elim r.review_status
        as (λ status.
          IsConsistent
            (elim status [ some st ↦ show_review st r s | none ↦ apply_progress date_parse r s ])) [
              | some st ↦ record { agrees = c.agrees; keys = c.keys; bounded = c.bounded }
              | none ↦ apply_progress-IsConsistent c
            ]

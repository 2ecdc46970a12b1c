-- ===== src/Tests/LoadingRuns.antt =====
-- A page that is refreshed while its first request is still pending.
use algo_test.Prelude.{ℕ, ◌≡◌, refl, ◌||◌, true, false, none, [], ◌∷◌}
use algo_test.Loading.{
  Page, loaded, begin_run, end_run, Reach, here, next, begins, ends, opened, is_pending,
}
use algo_test.Loading.Settled.{ShowsSame, Reach-busy, Reach-ShowsSame}

abbrev first : Page ℕ
first = opened none 0

abbrev refreshed : Page ℕ
refreshed = record { shown = begin_run true first.shown; pending = 2 ∷ 1 ∷ [] }

abbrev settled : Page ℕ
settled = record { shown = end_run none 2 (loaded 7) refreshed.shown; pending = 1 ∷ [] }

to_settled : Reach none first settled
unfolding begin_run
to_settled = next (next here (begins first true)) (ends refreshed 2 (loaded 7) refl)

settled-mounted : settled.shown.mounted ≡ true
unfolding end_run begin_run
settled-mounted = refl

Reach-busy_example :
    (settled.shown.loading || settled.shown.refreshing)
    ≡ is_pending settled.shown.request_id settled.pending
Reach-busy_example = Reach-busy none 0 to_settled settled-mounted

abbrev late : Page ℕ
late = record { shown = end_run none 1 (loaded 3) settled.shown; pending = [] }

to_late : Reach none settled late
to_late = next here (ends settled 1 (loaded 3) refl)

late-request_id : late.shown.request_id ≡ settled.shown.request_id
unfolding end_run begin_run
late-request_id = refl

settled-quiet : is_pending settled.shown.request_id settled.pending ≡ false
unfolding end_run begin_run
settled-quiet = refl

Reach-ShowsSame_example : ShowsSame none settled.shown late.shown
Reach-ShowsSame_example = Reach-ShowsSame none settled to_late late-request_id settled-quiet

-- ===== src/Proctor/Loopback/Access.antt =====
-- When the page reaches out to the loopback ports, and what it keeps of the answers.
use algo_test.Prelude.{◌≡◌, refl, inl, inr, ◌⊎◌, true, false, none, some, append-nil, Bool-cases}
use algo_test.Proctor.Types.{PermissionState, RefreshInput, ProctorPage}
use algo_test.Proctor.Resolve.{resolve}
use algo_test.Proctor.Loopback.{needs_local_probe, refresh}

-- If the server's answer needs no agent, or is missing, and also if the contestant has not asked
-- for access and the browser would prompt for it or has denied it: no port is asked, and the
-- verdict is the one for no agent.
pub refresh_without_probe :
    (input : RefreshInput) (page : ProctorPage)
    → (needs_local_probe input.self ≡ false)
      ⊎ ((input.request_access ≡ false)
          × ((input.permission ≡ some PermissionState.prompt)
              ⊎ (input.permission ≡ some PermissionState.denied)))
    → ((refresh input page).asked ≡ page.asked)
      × ((refresh input page).state ≡ record (resolve input.self none) { resolved = true })
unfolding refresh
refresh_without_probe input page (inl idle) = rw (idle, append-nil) (refl, refl)
refresh_without_probe input page (inr (unasked, p)) =
    elim (Bool-cases (needs_local_probe input.self)) [
      | inr idle ↦ rw (idle, append-nil) (refl, refl)
      | inl needed ↦ elim p [
        | inl e ↦ rw (needed, unasked, e, append-nil) (refl, refl)
        | inr e ↦ rw (needed, unasked, e, append-nil) (refl, refl)
      ]
    ]

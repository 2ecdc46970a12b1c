-- ===== src/Auth.antt =====
-- `clientAddress` of packages/auth/src/client-ip.ts: the address of a client, from the headers that
-- the edge proxy sets. A header that is absent is `none`.
pub mod Forwarded
pub mod Session
use algo_test.Prelude.{
  Bool, not, Option, none, some, List, [], ◌∷◌, map, select, if◌then◌else◌, Text, trim, is_blank,
  split_at,
}

-- `headers.get("x-real-ip")?.trim()`, where absent counts as empty.
abbrev pub trimmed : Option Text → Text
trimmed none = []
trimmed (some s) = trim s

-- The entries of X-Forwarded-For, without those that are empty.
unfoldable pub hops_of : Text → List Text
hops_of forwarded = select (λ hop. not (is_blank hop)) (map trim (split_at b',' forwarded))

-- `hops[hops.length - 1]`, where absent counts as empty.
unfoldable pub nearest : List Text → Text
nearest [] = []
nearest (hop ∷ []) = hop
nearest (hop ∷ next ∷ hops) = nearest (next ∷ hops)

unfoldable pub client_address : Option Text → Option Text → Text
unfolding hops_of nearest
client_address real forwarded =
    if not (is_blank (trimmed real)) then trimmed real else elim forwarded [
      | none ↦ []
      | some entries ↦ if is_blank entries then [] else nearest (hops_of entries)
    ]

-- ===== src/Tests/PageRuns.antt =====
-- The address of a client.
use algo_test.Prelude.{◌≡◌, refl, some, ◌∷◌, ◌++◌, arith, codes, trim, is_blank, true, false}
use algo_test.Auth.{trimmed, client_address}
use algo_test.Auth.Forwarded.{client_address-forwarded}

peer-filled : is_blank (trim (codes " 10.0.0.7")) ≡ false
unfolding trim
peer-filled = refl

blank-trimmed : is_blank (trimmed (some (codes " "))) ≡ true
unfolding trim
blank-trimmed = refl

client_address-forwarded_example :
    client_address (some (codes " ")) (some (codes "1.2.3.4, 5.6.7.8" ++ b',' ∷ codes " 10.0.0.7"))
    ≡ trim (codes " 10.0.0.7")
client_address-forwarded_example =
    client_address-forwarded (some (codes " ")) (codes "1.2.3.4, 5.6.7.8") (codes " 10.0.0.7")
      blank-trimmed (ground arith) peer-filled

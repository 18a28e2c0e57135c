-- ===== src/Util/Validity.antt =====
-- ValidateCert, which util/cryptoutil.go and lib/tcert/util.go both have, on Go's time.Time.Sub. An instant
-- is the number of nanoseconds since a fixed one before all of them.
use copfvtci.Prelude.{ℕ, ◌-◌, ◌<◌, ◌≡◌, ◌↔◌, Bool, true, not, ◌&&◌, leb, arith, if◌then◌else◌}
use copfvtci.Prelude.Int.{ℤ, pos, negsuc, leb_ℤ, max_int}

-- the period in which a certificate is valid
pub record Period : Type 0 where
  pub not_before : ℕ
  pub not_after : ℕ

abbrev pub min_of : ℕ → ℕ → ℕ
min_of a b = if leb a b then a else b

-- t.Sub(u): a duration is an int64, and the difference saturates
unfoldable pub sub_time : ℕ → ℕ → ℤ
sub_time t u = if leb u t then pos (min_of (t - u) max_int) else negsuc (min_of (u - t - 1) max_int)

abbrev pub positive : ℤ → Bool
positive d = not (leb_ℤ d (pos 0))

unfoldable pub validate_cert : ℕ → Period → Bool
validate_cert now p = positive (sub_time p.not_after now) && positive (sub_time now p.not_before)

-- However far apart the instants are: a certificate passes exactly if it has begun and has not ended.
pub validate_cert_lem :
    (now : ℕ) (p : Period)
    → (validate_cert now p ≡ true) ↔ ((p.not_before < now) × (now < p.not_after))
unfolding validate_cert sub_time
validate_cert_lem now p = (λ h. (ground arith, ground arith), λ (a, b). ground arith)

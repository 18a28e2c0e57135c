-- ===== src/Util.antt =====
-- RandomString and RemoveQuotes of util/util.go. The numbers that rnd.Int63 returns are an argument.
pub mod Json
pub mod Signing
pub mod CertSpec
pub mod Validity
pub mod Wire
pub mod Random
pub mod Quotes
use copfvtci.Prelude.{
  ℕ, zero, suc, ◌-◌, ◌/◌, ◌%◌, Bool, true, false, ◌&&◌, ◌||◌, Option, none, some, List, [], ◌∷◌,
  Text, codes, length, take, drop, ltb, ◌==◌, is_empty, if◌then◌else◌,
}
use copfvtci.Errors.{Outcome, returned, panicked}

-- letterBytes, letterIdxMask + 1 and letterIdxMax
abbrev pub letter_bytes : Text
letter_bytes = codes "abcdefghijklmnopqrstuvwxyzABCDEFGHIJKLMNOPQRSTUVWXYZ"

abbrev pub letter_idx_count : ℕ
letter_idx_count = 64

abbrev pub letter_idx_max : ℕ
letter_idx_max = 10

unfoldable pub at_index : Text → ℕ → ℕ
at_index [] i = 0
at_index (c ∷ s) zero = c
at_index (c ∷ s) (suc i) = at_index s i

-- The rounds of the loop on one cache: `remain` indices are left in it, and `count` bytes to write. The
-- source writes from the last byte to the first, so a byte stands in front of those written before.
unfoldable pub from_cache : ℕ → ℕ → ℕ → Text → ℕ × Text
from_cache zero cache count b = (count, b)
from_cache (suc remain) cache zero b = (zero, b)
from_cache (suc remain) cache (suc count) b =
    let idx = cache % letter_idx_count in
    elim (ltb idx (length letter_bytes)) [
      | true ↦ from_cache remain (cache / letter_idx_count) count (at_index letter_bytes idx ∷ b)
      | false ↦ from_cache remain (cache / letter_idx_count) (suc count) b
    ]

-- The loop of RandomString, on the numbers that rnd.Int63 is still to return; `none` if they run out,
-- which those of the source never do.
unfoldable pub random_letters : List ℕ → ℕ → Text → Option Text
random_letters draws zero b = some b
random_letters [] (suc count) b = none
random_letters (draw ∷ draws) (suc count) b =
    let (left, written) = from_cache letter_idx_max draw (suc count) b in
    random_letters draws left written

abbrev pub random_string : List ℕ → ℕ → Option Text
random_string draws n = random_letters draws n []

-- strings.HasSuffix of one byte
unfoldable pub ends_in : ℕ → Text → Bool
ends_in q [] = false
ends_in q (c ∷ []) = c == q
ends_in q (c ∷ d ∷ s) = ends_in q (d ∷ s)

-- strings.HasPrefix and strings.HasSuffix
abbrev pub within : ℕ → Text → Bool
within q [] = false
within q (c ∷ s) = (c == q) && ends_in q (c ∷ s)

-- str[1 : len(str)-1], which panics where the bounds cross
abbrev pub inner : Text → Outcome Text
inner str = if ltb (length str) 2 then panicked else returned (take (length str - 2) (drop 1 str))

-- RemoveQuotes
unfoldable pub remove_quotes : Text → Outcome Text
remove_quotes str =
    if is_empty str
    then returned str
    else if within 39 str || within 34 str
    then inner str
    else returned str

-- ===== src/Util/Random.antt =====
-- What RandomString of util/util.go returns.
use copfvtci.Prelude.{
  ℕ, zero, suc, ◌+◌, ◌/◌, ◌%◌, ◌≡◌, ◌≤◌, ◌<◌, refl, inl, inr, Bool, true, false, ◌||◌, some, List,
  [], ◌∷◌, Text, All, length, ltb, arith, Bool-cases,
}
use copfvtci.Util.{
  letter_bytes, letter_idx_count, letter_idx_max, at_index, from_cache, random_letters,
  random_string,
}

-- one of the bytes of letterBytes
abbrev pub IsLetter : ℕ → Type 0
IsLetter c = (idx : ℕ) × (idx < length letter_bytes) × (c ≡ at_index letter_bytes idx)

-- some of the next `remain` indices of a number is that of a letter
unfoldable pub has_letter : ℕ → ℕ → Bool
has_letter zero cache = false
has_letter (suc remain) cache =
    ltb (cache % letter_idx_count) (length letter_bytes)
    || has_letter remain (cache / letter_idx_count)

-- what the rounds on one cache keep
abbrev Keeps : ℕ → ℕ → ℕ → Text → Type 0
Keeps remain cache count b =
    (All IsLetter b → All IsLetter (from_cache remain cache count b).1)
    × (length (from_cache remain cache count b).1 + (from_cache remain cache count b).0
        ≡ length b + count)

from_cache-Keeps : (remain cache count : ℕ) (b : Text) → Keeps remain cache count b
unfolding from_cache
from_cache-Keeps zero cache count b = (λ h. h, refl)
from_cache-Keeps (suc remain) cache zero b = (λ h. h, refl)
from_cache-Keeps (suc remain) cache (suc count) b =
    let idx = cache % letter_idx_count in
    let next = cache / letter_idx_count in
    elim (Bool-cases (ltb idx (length letter_bytes))) [
      | inl e ↦
          let (letters, total) =
            from_cache-Keeps remain next count (at_index letter_bytes idx ∷ b) in
          rw (e, from_cache) (λ h. letters ((idx, ground arith, refl), h), omega arith)
      | inr e ↦ rw (e, from_cache) (from_cache-Keeps remain next (suc count) b)
    ]

from_cache_le : (remain cache count : ℕ) (b : Text) → (from_cache remain cache count b).0 ≤ count
unfolding from_cache
from_cache_le zero cache count b = omega arith
from_cache_le (suc remain) cache zero b = omega arith
from_cache_le (suc remain) cache (suc count) b =
    let idx = cache % letter_idx_count in
    let next = cache / letter_idx_count in
    elim (Bool-cases (ltb idx (length letter_bytes))) [
      | inl e ↦
          rw (e, from_cache)
            (omega (arith, from_cache_le remain next count (at_index letter_bytes idx ∷ b)))
      | inr e ↦ rw (e, from_cache) (from_cache_le remain next (suc count) b)
    ]

from_cache_writes :
    (remain cache count : ℕ) (b : Text)
    → has_letter remain cache ≡ true
    → (from_cache remain cache (suc count) b).0 ≤ count
unfolding from_cache has_letter
from_cache_writes zero cache count b h = absurd (cc)
from_cache_writes (suc remain) cache count b h =
    let idx = cache % letter_idx_count in
    let next = cache / letter_idx_count in
    elim (Bool-cases (ltb idx (length letter_bytes))) [
      | inl e ↦ rw (e, from_cache) (from_cache_le remain next count (at_index letter_bytes idx ∷ b))
      | inr e ↦ rw (e, from_cache) (from_cache_writes remain next count b (ground arith))
    ]

random_letters_lem :
    (draws : List ℕ) (count : ℕ) (b : Text)
    → All (λ d. has_letter letter_idx_max d ≡ true) draws
    → count ≤ length draws
    → All IsLetter b
    → (s : Text) × (random_letters draws count b ≡ some s)
      × (length s ≡ length b + count)
      × All IsLetter s
unfolding random_letters
random_letters_lem draws zero b good enough letters = (b, refl, omega arith, letters)
random_letters_lem [] (suc count) b good enough letters = absurd (omega arith)
random_letters_lem (draw ∷ draws) (suc count) b (here, good) enough letters =
    let (kept, total) = from_cache-Keeps letter_idx_max draw (suc count) b in
    let less = from_cache_writes letter_idx_max draw count b here in
    let (s, made, long, all) =
      random_letters_lem draws (from_cache letter_idx_max draw (suc count) b).0
        (from_cache letter_idx_max draw (suc count) b).1 good (omega arith) (kept letters) in
    (s, made, omega arith, all)

-- With at least as many draws as bytes to write, each with some index of a letter in it, RandomString
-- returns, and what it returns has the length asked for and holds letters only.
pub random_string_lem :
    (draws : List ℕ) (n : ℕ)
    → All (λ d. has_letter letter_idx_max d ≡ true) draws
    → n ≤ length draws
    → (s : Text) × (random_string draws n ≡ some s) × (length s ≡ n) × All IsLetter s
random_string_lem draws n good enough =
    let (s, made, long, all) = random_letters_lem draws n [] good enough tt in
    (s, made, omega arith, all)

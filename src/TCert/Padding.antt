-- ===== src/TCert/Padding.antt =====
-- PKCS7Padding and PKCS7UnPadding of lib/tcert/util.go, on lists of bytes.
use copfvtci.Prelude.{
  ℕ, zero, suc, ◌+◌, ◌-◌, ◌%◌, ◌≤◌, ◌<◌, ◌≡◌, ◌≢◌, refl, sym, ap, ◌∙◌, Bool, true, ◌&&◌, ◌||◌, [],
  ◌∷◌, ◌++◌, arith, Text, length, take, drop, replicate, length-append, length-replicate,
  take-append, drop-append, take-append-drop, length-drop, ltb, ◌==◌, if◌then◌else◌,
}
use copfvtci.Errors.{Outcome, returned, failed, panicked, library_error}

-- aes.BlockSize
abbrev pub block_size : ℕ
block_size = 16

-- aes.BlockSize - len(src) % aes.BlockSize, between 1 and 16
abbrev pub padding_of : Text → ℕ
padding_of src = block_size - length src % block_size

unfoldable pub pkcs7_padding : Text → Text
pkcs7_padding src = src ++ replicate (padding_of src) (padding_of src)

-- src[length-1], for a text that is not empty
unfoldable pub last_byte : ℕ → Text → ℕ
last_byte b [] = b
last_byte b (c ∷ src) = last_byte c src

-- the loop over pad
unfoldable pub all_equal : ℕ → Text → Bool
all_equal u [] = true
all_equal u (b ∷ pad) = b == u && all_equal u pad

unpad : ℕ → Text → Outcome Text
unpad u src =
    if ltb block_size u || u == 0
    then failed library_error
    else if ltb (length src) u
    then panicked
    else if all_equal u (drop (length src - u) src)
    then returned (take (length src - u) src)
    else failed library_error

unfoldable pub pkcs7_unpadding : Text → Outcome Text
unfolding unpad
pkcs7_unpadding [] = panicked
pkcs7_unpadding (b ∷ src) = unpad (last_byte b src) (b ∷ src)

all_equal-replicate : (n u : ℕ) → all_equal u (replicate n u) ≡ true
unfolding all_equal
all_equal-replicate zero u = refl
all_equal-replicate (suc n) u = ground (arith, all_equal-replicate n u)

all_equal_sound : (u : ℕ) (pad : Text) → all_equal u pad ≡ true → pad ≡ replicate (length pad) u
unfolding all_equal
all_equal_sound u [] h = refl
all_equal_sound u (b ∷ pad) h = ground (arith, all_equal_sound u pad)

last_byte-append : (b : ℕ) (s : Text) (n u : ℕ) → last_byte b (s ++ replicate (suc n) u) ≡ u
unfolding last_byte
last_byte-append b [] zero u = refl
last_byte-append b [] (suc n) u = last_byte-append u [] n u
last_byte-append b (c ∷ s) n u = last_byte-append c s n u

unpad-padding :
    (s : Text) (n : ℕ) → n < 16 → unpad (suc n) (s ++ replicate (suc n) (suc n)) ≡ returned s
unfolding unpad
unpad-padding s n h =
    let pad : Text = replicate (suc n) (suc n) in
    let whole : length (s ++ pad) ≡ length s + suc n =
      length-append s pad ∙ ap (λ k. length s + k) (length-replicate (suc n) (suc n)) in
    let start : length (s ++ pad) - suc n ≡ length s = omega arith in
    let dropped = ap (λ k. drop k (s ++ pad)) start ∙ drop-append s pad in
    let taken = ap (λ k. take k (s ++ pad)) start ∙ take-append s pad in
    ground (arith, dropped, taken, all_equal-replicate (suc n) (suc n), whole)

padded_byte :
    (s : Text) (n : ℕ) → n < 16 → pkcs7_unpadding (s ++ replicate (suc n) (suc n)) ≡ returned s
unfolding pkcs7_unpadding last_byte
padded_byte [] n h = rw (last_byte-append (suc n) [] n (suc n)) (unpad-padding [] n h)
padded_byte (b ∷ s) n h = rw (last_byte-append b s n (suc n)) (unpad-padding (b ∷ s) n h)

-- Unpadding what was padded gives the text back, for every text.
pub pkcs7_unpadding-padding : (s : Text) → pkcs7_unpadding (pkcs7_padding s) ≡ returned s
unfolding pkcs7_padding
pkcs7_unpadding-padding s =
    let e : padding_of s ≡ suc (padding_of s - 1) = omega arith in
    rw e (padded_byte s (padding_of s - 1) (omega arith))

-- A padded text is a whole number of blocks, and longer than the text.
pub length-pkcs7_padding :
    (s : Text) → (length (pkcs7_padding s) % block_size ≡ 0) × (length s < length (pkcs7_padding s))
unfolding pkcs7_padding
length-pkcs7_padding s =
    let whole = length-append s (replicate (padding_of s) (padding_of s)) in
    let pad = length-replicate (padding_of s) (padding_of s) in (omega arith, omega arith)

unpad-tests :
    (u : ℕ) (src s : Text)
    → unpad u src ≡ returned s
    → (1 ≤ u)
      × (u ≤ block_size)
      × (u ≤ length src)
      × (all_equal u (drop (length src - u) src) ≡ true)
      × (s ≡ take (length src - u) src)
unfolding unpad
unpad-tests u src s h = ground arith

unpad_sound :
    (u : ℕ) (src s : Text)
    → unpad u src ≡ returned s
    → (src ≡ s ++ replicate u u) × (1 ≤ u) × (u ≤ block_size)
unpad_sound u src s h =
    let (low, high, fits, same, front) = unpad-tests u src s h in
    let size : length (drop (length src - u) src) ≡ u =
      omega (arith, length-drop (length src - u) src) in
    let back = all_equal_sound u (drop (length src - u) src) same ∙ ap (λ k. replicate k u) size in
    (
      sym (take-append-drop (length src - u) src)
          ∙ ap (λ t. t ++ drop (length src - u) src) (sym front)
          ∙ ap (λ t. s ++ t) back,
      low,
      high,
    )

-- Unpadding succeeds only on a text that ends in u bytes of value u, for a u from 1 to 16, and returns
-- what stands before them.
pub pkcs7_unpadding_sound :
    (src s : Text)
    → pkcs7_unpadding src ≡ returned s
    → (u : ℕ) × (src ≡ s ++ replicate u u) × (1 ≤ u) × (u ≤ block_size)
unfolding pkcs7_unpadding
pkcs7_unpadding_sound [] s h = absurd (cc)
pkcs7_unpadding_sound (b ∷ src) s h =
    let (e, low, high) = unpad_sound (last_byte b src) (b ∷ src) s h in
    (last_byte b src, e, low, high)

unpad-ne-panicked : (u : ℕ) (src : Text) → block_size ≤ length src → unpad u src ≢ panicked
unfolding unpad
unpad-ne-panicked u src h = ground arith

-- On the empty text the source reads src[-1] and panics; on a text of a block or more it does not.
pub pkcs7_unpadding-panicked :
    (src : Text)
    → ((length src ≡ 0 → pkcs7_unpadding src ≡ panicked))
      × (block_size ≤ length src → pkcs7_unpadding src ≢ panicked)
unfolding pkcs7_unpadding
pkcs7_unpadding-panicked [] = (λ _. refl, λ h. absurd (omega arith))
pkcs7_unpadding-panicked (b ∷ src) =
    (λ h. absurd (omega arith), λ h. unpad-ne-panicked (last_byte b src) (b ∷ src) h)

-- ===== src/TCert/Numbers.antt =====
-- GenNumber, GenerateBytesUUID and GenerateIntUUID of lib/tcert/util.go. The random bytes and numbers are
-- arguments.
use native.Mathlib.Nat.{pow-suc}
use Prim.Native.Nat.{bit_and, bit_or}
use copfvtci.Prelude.{
  ℕ, zero, suc, ◌+◌, ◌-◌, ◌*◌, ◌%◌, ◌^◌, ◌≤◌, ◌<◌, ◌≡◌, ◌≢◌, refl, sym, ap, ◌∙◌, Bool, true, false,
  Option, none, some, List, [], ◌∷◌, arith, Text, length, ltb, ◌==◌, if◌then◌else◌,
}
use copfvtci.Errors.{Result, ok, err, library_error}

-- GenNumber; `random` is what rand.Int returns, below 10 ^ numlen
unfoldable pub gen_number : ℕ → ℕ → ℕ
gen_number numlen random =
    let lower = 10 ^ (numlen - 1) in
    let upper = 10 ^ numlen in
    let val_mod = (random + lower) % upper in if ltb val_mod lower then val_mod + lower else val_mod

shifted_bounds :
    (lower upper random : ℕ)
    → upper ≡ 10 * lower
    → random < upper
    → (lower ≤ (
        if ltb ((random + lower) % upper) lower
        then (random + lower) % upper + lower
        else (random + lower) % upper))
      × ((if ltb ((random + lower) % upper) lower
            then (random + lower) % upper + lower
            else (random + lower) % upper)
          < upper)
shifted_bounds lower upper random ten small =
    let inside : (random + lower) % upper < upper = omega arith in ground (arith, inside)

-- The number has exactly the digits asked for: at least 10 ^ (numlen - 1), and below 10 ^ numlen.
pub gen_number_bounds :
    (numlen random : ℕ)
    → 0 < numlen
    → random < 10 ^ numlen
    → (10 ^ (numlen - 1) ≤ gen_number numlen random) × (gen_number numlen random < 10 ^ numlen)
unfolding gen_number
gen_number_bounds zero random pos small = elim pos [ ]
gen_number_bounds (suc m) random pos small =
    let less : suc m - 1 ≡ m = omega arith in
    rw less (shifted_bounds (10 ^ m) (10 ^ suc m) random (pow-suc 10 m ∙ omega arith) small)

-- uuid[8]&^0xc0 | 0x80 and uuid[6]&^0xf0 | 0x40
abbrev pub variant_byte : ℕ → ℕ
variant_byte b = bit_or (bit_and b 0x3f) 0x80

abbrev pub version_byte : ℕ → ℕ
version_byte b = bit_or (bit_and b 0x0f) 0x40

abbrev pub set : {A : Type 0} → List A → ℕ → A → List A
set [] i v = []
set (x ∷ xs) zero v = v ∷ xs
set (x ∷ xs) (suc i) v = x ∷ set xs i v

abbrev pub byte_at : List ℕ → ℕ → ℕ
byte_at [] i = 0
byte_at (x ∷ xs) zero = x
byte_at (x ∷ xs) (suc i) = byte_at xs i

-- GenerateBytesUUID; `random` is the 16 bytes that io.ReadFull reads, `none` if it fails
unfoldable pub generate_bytes_uuid : Option Text → Result Text
generate_bytes_uuid none = err library_error
generate_bytes_uuid (some uuid) =
    let first = set uuid 8 (variant_byte (byte_at uuid 8)) in
    ok (set first 6 (version_byte (byte_at first 6)))

-- SetBytes: the big-endian number
unfoldable pub big_endian : ℕ → Text → ℕ
big_endian n [] = n
big_endian n (b ∷ bs) = big_endian (n * 256 + b) bs

-- GenerateIntUUID
abbrev int_of : Result Text → Result ℕ
int_of (err e) = err e
int_of (ok uuid) = ok (big_endian 0 uuid)

unfoldable pub generate_int_uuid : Option Text → Result ℕ
generate_int_uuid random = int_of (generate_bytes_uuid random)

-- two functions of a byte, compared at every byte below a bound
agree : (ℕ → ℕ) → (ℕ → ℕ) → ℕ → Bool
agree f g zero = true
agree f g (suc top) = if f top == g top then agree f g top else false

eq_if_agree : (f g : ℕ → ℕ) (bound b : ℕ) → b < bound → agree f g bound ≡ true → f b ≡ g b
unfolding agree
eq_if_agree f g zero b small same = elim small [ ]
eq_if_agree f g (suc top) b small same = ground (arith, eq_if_agree f g top b)

variant_byte_lem : (b : ℕ) → b < 256 → variant_byte b ≡ b % 64 + 128
unfolding agree
variant_byte_lem b h = eq_if_agree variant_byte (λ x. x % 64 + 128) 256 b h refl

version_byte_lem : (b : ℕ) → b < 256 → version_byte b ≡ b % 16 + 64
unfolding agree
version_byte_lem b h = eq_if_agree version_byte (λ x. x % 16 + 64) 256 b h refl

byte_at-set_self : (xs : List ℕ) (i v : ℕ) → i < length xs → byte_at (set xs i v) i ≡ v
byte_at-set_self [] i v h = elim h [ ]
byte_at-set_self (x ∷ xs) zero v h = refl
byte_at-set_self (x ∷ xs) (suc i) v h = byte_at-set_self xs i v (omega arith)

byte_at-set_ne : (xs : List ℕ) (i j v : ℕ) → i ≢ j → byte_at (set xs i v) j ≡ byte_at xs j
byte_at-set_ne [] i j v h = refl
byte_at-set_ne (x ∷ xs) zero zero v h = absurd (h refl)
byte_at-set_ne (x ∷ xs) zero (suc j) v h = refl
byte_at-set_ne (x ∷ xs) (suc i) zero v h = refl
byte_at-set_ne (x ∷ xs) (suc i) (suc j) v h = byte_at-set_ne xs i j v (λ e. h (ap suc e))

length-set : (xs : List ℕ) (i v : ℕ) → length (set xs i v) ≡ length xs
length-set [] i v = refl
length-set (x ∷ xs) zero v = refl
length-set (x ∷ xs) (suc i) v = ap suc (length-set xs i v)

-- Of 16 random bytes the UUID keeps all but six bits: byte 6 has version 4 in its upper half and its
-- own lower half, byte 8 has the variant 10 in its upper two bits and its own lower six, and every
-- other byte is as it was.
pub generate_bytes_uuid_lem :
    (random : Text) (i : ℕ)
    → length random ≡ 16
    → byte_at random 6 < 256
    → byte_at random 8 < 256
    → i ≢ 6
    → i ≢ 8
    → (uuid : Text) × (generate_bytes_uuid (some random) ≡ ok uuid)
      × (length uuid ≡ 16)
      × (byte_at uuid 6 ≡ byte_at random 6 % 16 + 64)
      × (byte_at uuid 8 ≡ byte_at random 8 % 64 + 128)
      × (byte_at uuid i ≡ byte_at random i)
unfolding generate_bytes_uuid
generate_bytes_uuid_lem random i size six eight ne_six ne_eight =
    let v = variant_byte (byte_at random 8) in
    let first = set random 8 v in
    let kept = byte_at-set_ne random 8 6 v (omega arith) in
    let w = version_byte (byte_at first 6) in
    let long : length first ≡ 16 = length-set random 8 v ∙ size in
    (
      set first 6 w,
      refl,
      length-set first 6 w ∙ long,
      byte_at-set_self first 6 w (omega arith)
          ∙ ap version_byte kept
          ∙ version_byte_lem (byte_at random 6) six,
      byte_at-set_ne first 6 8 w (omega arith)
          ∙ byte_at-set_self random 8 v (omega arith)
          ∙ variant_byte_lem (byte_at random 8) eight,
      byte_at-set_ne first 6 i w (λ e. ne_six (sym e))
          ∙ byte_at-set_ne random 8 i v (λ e. ne_eight (sym e)),
    )

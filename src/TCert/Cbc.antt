-- ===== src/TCert/Cbc.antt =====
-- CBCEncrypt, CBCDecrypt and their PKCS7 forms in lib/tcert/util.go. AES in CBC mode is Go's: a
-- parameter, with the laws that its documentation states.
use copfvtci.Prelude.{
  ◌-◌, ◌%◌, ◌≡◌, sym, ap, ◌∙◌, ◌↔◌, Bool, true, not, Option, none, some, ◌++◌, arith, Text, length,
  take, drop, length-append, take-append, drop-append, length-drop, ltb, ◌==◌, if◌then◌else◌,
}
use copfvtci.Errors.{Outcome, returned, failed, panicked, Result, ok, err, library_error}
use copfvtci.TCert.Padding.{
  block_size, pkcs7_padding, pkcs7_unpadding, pkcs7_unpadding-padding, length-pkcs7_padding,
  pkcs7_unpadding-panicked,
}

-- aes.NewCipher and cipher.NewCBCEncrypter/Decrypter: which keys are taken, and the blocks of a text
-- under a key and an initialisation vector
pub record Cbc : Type 0 where
  pub valid_key : Text → Bool
  pub crypt : Text → Text → Text → Text
  pub decrypt : Text → Text → Text → Text

-- `IsBlocks s`: the text is a whole number of blocks
abbrev pub IsBlocks : Text → Type 0
IsBlocks s = length s % block_size ≡ 0

pub record CbcLaws (c : Cbc) : Type 0 where
  pub decrypt-crypt : (key iv s : Text) → IsBlocks s → c.decrypt key iv (c.crypt key iv s) ≡ s
  pub length-crypt : (key iv s : Text) → IsBlocks s → length (c.crypt key iv s) ≡ length s
  pub length-decrypt : (key iv s : Text) → IsBlocks s → length (c.decrypt key iv s) ≡ length s

module _ (c : Cbc) where
  with_iv : Text → Text → Option Text → Result Text
  with_iv key s none = err library_error
  with_iv key s (some iv) = ok (iv ++ c.crypt key iv s)

  -- CBCEncrypt; `iv` is what io.ReadFull reads into the first block, `none` if it fails
  unfoldable pub cbc_encrypt : Text → Text → Option Text → Result Text
  unfolding with_iv
  cbc_encrypt key s iv =
      if not (length s % block_size == 0)
      then err library_error
      else if not (c.valid_key key)
      then err library_error
      else with_iv key s iv

  -- CBCPKCS7Encrypt
  unfoldable pub cbc_pkcs7_encrypt : Text → Text → Option Text → Result Text
  cbc_pkcs7_encrypt key src iv = cbc_encrypt key (pkcs7_padding src) iv

  unfoldable pub cbc_decrypt : Text → Text → Result Text
  cbc_decrypt key src =
      if not (c.valid_key key)
      then err library_error
      else if ltb (length src) block_size
      then err library_error
      else if not (length (drop block_size src) % block_size == 0)
      then err library_error
      else ok (c.decrypt key (take block_size src) (drop block_size src))

  abbrev unpadded : Result Text → Outcome Text
  unpadded (ok pt) = pkcs7_unpadding pt
  unpadded (err e) = failed e

  -- CBCPKCS7Decrypt
  unfoldable pub cbc_pkcs7_decrypt : Text → Text → Outcome Text
  cbc_pkcs7_decrypt key src = unpadded (cbc_decrypt key src)

  module _ (laws : CbcLaws c) where
    encrypted :
        (key src iv : Text)
        → c.valid_key key ≡ true
        → cbc_pkcs7_encrypt key src (some iv) ≡ ok (iv ++ c.crypt key iv (pkcs7_padding src))
    unfolding cbc_pkcs7_encrypt cbc_encrypt
    encrypted key src iv valid = ground (arith, length-pkcs7_padding src)

    decrypted :
        (key iv s : Text)
        → c.valid_key key ≡ true
        → length iv ≡ block_size
        → IsBlocks s
        → cbc_decrypt key (iv ++ c.crypt key iv s) ≡ ok s
    unfolding cbc_decrypt
    decrypted key iv s valid size blocks =
        let front =
          ap (λ k. take k (iv ++ c.crypt key iv s)) (sym size)
          ∙ take-append iv (c.crypt key iv s) in
        let back =
          ap (λ k. drop k (iv ++ c.crypt key iv s)) (sym size)
          ∙ drop-append iv (c.crypt key iv s) in
        let whole = length-append iv (c.crypt key iv s) in
        let same = laws.length-crypt key iv s blocks in
        let plain = laws.decrypt-crypt key iv s blocks in rw (front, back) (ground arith)

    -- What CBCPKCS7Encrypt makes of a text, under a key that AES takes and an initialisation vector
    -- of one block, CBCPKCS7Decrypt turns back into the text under the same key, for every text.
    pub cbc_pkcs7_decrypt-encrypt :
        (key src iv : Text)
        → c.valid_key key ≡ true
        → length iv ≡ block_size
        → (ct : Text) × (cbc_pkcs7_encrypt key src (some iv) ≡ ok ct)
          × (cbc_pkcs7_decrypt key ct ≡ returned src)
    unfolding cbc_pkcs7_decrypt
    cbc_pkcs7_decrypt-encrypt key src iv valid size = (
      iv ++ c.crypt key iv (pkcs7_padding src),
      encrypted key src iv valid,
      rw (decrypted key iv (pkcs7_padding src) valid size (length-pkcs7_padding src).0)
          (pkcs7_unpadding-padding src),
    )

    plain_length :
        (key src : Text)
        → IsBlocks (drop block_size src)
        → length (c.decrypt key (take block_size src) (drop block_size src))
          ≡ length src - block_size
    plain_length key src blocks =
        laws.length-decrypt key (take block_size src) (drop block_size src) blocks
        ∙ length-drop block_size src

    panics_on :
        (key src : Text)
        → c.valid_key key ≡ true
        → length src ≡ block_size
        → cbc_pkcs7_decrypt key src ≡ panicked
    unfolding cbc_pkcs7_decrypt cbc_decrypt
    panics_on key src valid size =
        let none_left = length-drop block_size src in
        let empty = plain_length key src (omega arith) in
        ground (
          arith,
          (pkcs7_unpadding-panicked (c.decrypt key (take block_size src) (drop block_size src))).0
              (omega arith),
        )

    panics_only_on :
        (key src : Text)
        → c.valid_key key ≡ true
        → cbc_pkcs7_decrypt key src ≡ panicked
        → length src ≡ block_size
    unfolding cbc_pkcs7_decrypt cbc_decrypt
    panics_only_on key src valid h =
        let left = length-drop block_size src in
        ground (
          arith,
          plain_length key src,
          (pkcs7_unpadding-panicked (c.decrypt key (take block_size src) (drop block_size src))).1,
        )

    -- Under a key that AES takes, CBCPKCS7Decrypt panics exactly on the texts of one block: an
    -- initialisation vector with no block behind it.
    pub cbc_pkcs7_decrypt-panicked :
        (key src : Text)
        → c.valid_key key ≡ true
        → (cbc_pkcs7_decrypt key src ≡ panicked) ↔ (length src ≡ block_size)
    cbc_pkcs7_decrypt-panicked key src valid =
        (panics_only_on key src valid, panics_on key src valid)

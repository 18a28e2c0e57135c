-- ===== src/TCert/Extensions.antt =====
-- generateExtensions and buildAttributesHeader of lib/tcert/tcert.go. HMAC and AES are parameters; the order
-- in which Go iterates over the header's map is an argument.
pub mod Layout
pub mod Decryption
use copfvtci.Prelude.{
  ℕ, zero, suc, ◌+◌, Bool, true, false, Option, none, some, List, [], ◌∷◌, ◌++◌, Text, text_eq,
  codes, length, take, replicate, is_empty, if◌then◌else◌,
}
use copfvtci.Errors.{Result, ok, err}
use copfvtci.Spi.{Attribute}
use copfvtci.Accessor.{StrMap}
use copfvtci.TCert.Cbc.{Cbc, cbc_pkcs7_encrypt}
use copfvtci.TCert.Decimal.{itoa}

-- pkix.Extension
pub record Extension : Type 0 where
  pub id : List ℕ
  pub critical : Bool
  pub value : Text

-- the fields of GetBatchRequest that the extensions depend on
pub record AttrRequest : Type 0 where
  pub attrs : List Attribute
  pub encrypt_attrs : Bool
  pub prekey : Text

-- asn1.ObjectIdentifier{1, 2, 3, 4, 5, 6, n}
abbrev pub oid : ℕ → List ℕ
oid n = 1 ∷ 2 ∷ 3 ∷ 4 ∷ 5 ∷ 6 ∷ n ∷ []

-- Padding
abbrev pub padding : Text
padding = replicate 16 255

abbrev pub enrollment_id_key_name : Text
enrollment_id_key_name = codes "enrollmentId"

-- attributesHeader[name] = count
unfoldable pub header_put : Text → ℕ → List (Text × ℕ) → List (Text × ℕ)
header_put name count [] = (name, count) ∷ []
header_put name count ((n, c) ∷ header) =
    if text_eq n name then (name, count) ∷ header else (n, c) ∷ header_put name count header

-- buildAttributesHeader, over the entries in the order of the iteration
unfoldable pub build_attributes_header : List (Text × ℕ) → Text
build_attributes_header [] = []
build_attributes_header ((k, v) ∷ header) =
    (k ++ codes "->" ++ itoa v ++ codes "#") ++ build_attributes_header header

-- what the loop has made: the extensions in order, the keys and the header
pub record Made : Type 0 where
  pub extensions : List Extension
  pub ks : StrMap
  pub header : List (Text × ℕ)

module _ (hmac : Text → Text → Text) (cbc : Cbc) where
  -- mac.Sum(nil)[:32]
  abbrev pub attr_key : Text → Text → Text
  attr_key prek0 name = take 32 (hmac prek0 name)

  -- the value of an attribute's extension, encrypted if that is asked for
  attr_value : Bool → Text → Option Text → Attribute → Result Text
  attr_value false prek0 iv a = ok a.value
  attr_value true prek0 iv a = cbc_pkcs7_encrypt cbc (attr_key prek0 a.name) (a.value ++ padding) iv

  abbrev pub attr_ks : Bool → Text → Attribute → StrMap → StrMap
  attr_ks encrypt prek0 a ks = if encrypt then (a.name, attr_key prek0 a.name) ∷ ks else ks

  abbrev attr_extension : ℕ → Text → Extension
  attr_extension count value = record { id = oid (9 + count); critical = false; value = value }

  abbrev cons_made : ℕ → Result Text → Result Made → Result Made
  cons_made count (err e) rest = err e
  cons_made count (ok value) (err e) = err e
  cons_made count (ok value) (ok m) =
      ok (record m { extensions = attr_extension count value ∷ m.extensions })

  -- the loop over the attributes, from `count` on; `ivs` are the initialisation vectors it draws
  unfoldable pub attr_loop :
      Bool → Text → (ℕ → Option Text) → List Attribute → ℕ → StrMap → List (Text × ℕ) → Result Made
  unfolding attr_value
  attr_loop encrypt prek0 ivs [] count ks header =
      ok (record { extensions = []; ks = ks; header = header })
  attr_loop encrypt prek0 ivs (a ∷ attrs) count ks header =
      cons_made (count + 1) (attr_value encrypt prek0 (ivs (count + 1)) a) (
        attr_loop encrypt prek0 ivs attrs (count + 1) (attr_ks encrypt prek0 a ks)
          (header_put a.name (count + 1) header))

  abbrev pub header_extension :
      (List (Text × ℕ) → List (Text × ℕ)) → List Attribute → Made → List Extension
  header_extension order attrs m =
      if is_empty attrs
      then []
      else record { id = oid 9; critical = false; value = build_attributes_header (order m.header) }
        ∷ []

  abbrev pub fixed_extensions : Text → Text → List Extension
  fixed_extensions tidx enc_id =
      record { id = oid 7; critical = true; value = tidx }
      ∷ record { id = oid 8; critical = false; value = enc_id }
      ∷ []

  abbrev finish :
      (List (Text × ℕ) → List (Text × ℕ))
      → List Attribute
      → Text
      → Text
      → Result Made
      → Result (List Extension × StrMap)
  finish order attrs tidx enc_id (err e) = err e
  finish order attrs tidx enc_id (ok m) =
      ok (m.extensions ++ (fixed_extensions tidx enc_id ++ header_extension order attrs m), m.ks)

  abbrev with_id :
      (List (Text × ℕ) → List (Text × ℕ))
      → AttrRequest
      → Text
      → (ℕ → Option Text)
      → Text
      → Result Text
      → Result (List Extension × StrMap)
  with_id order req tidx ivs prek0 (err e) = err e
  with_id order req tidx ivs prek0 (ok enc_id) = finish order req.attrs tidx enc_id (
      attr_loop req.encrypt_attrs prek0 ivs req.attrs 0
        ((enrollment_id_key_name, attr_key prek0 (codes "enrollmentID")) ∷ []) [])

  -- generateExtensions: `serial` is tcertid.Bytes(), `common_name` the enrollment id of the certificate
  unfoldable pub generate_extensions :
      (List (Text × ℕ) → List (Text × ℕ))
      → AttrRequest
      → Text
      → Text
      → Text
      → (ℕ → Option Text)
      → Result (List Extension × StrMap)
  generate_extensions order req serial common_name tidx ivs =
      let prek0 = hmac req.prekey serial in
      with_id order req tidx ivs prek0 (
        cbc_pkcs7_encrypt cbc (attr_key prek0 (codes "enrollmentID")) (common_name ++ padding)
          (ivs 0))

-- ===== src/TCert/Extensions/Decryption.antt =====
-- What generateExtensions of lib/tcert/tcert.go encrypts is opened by the keys that it returns.
use copfvtci.Prelude.{
  ℕ, suc, ◌+◌, ◌≡◌, refl, ap, ◌∙◌, inl, inr, true, false, some, List, [], ◌∷◌, ◌++◌, Text, text_eq,
  text_eq_refl, text_eq_iff, codes, length, All, arith, Bool-cases,
}
use copfvtci.Errors.{ok, returned}
use copfvtci.Spi.{Attribute}
use copfvtci.Accessor.{StrMap, map_get}
use copfvtci.TCert.Padding.{block_size}
use copfvtci.TCert.Cbc.{Cbc, CbcLaws, cbc_pkcs7_decrypt, cbc_pkcs7_decrypt-encrypt}
use copfvtci.TCert.Extensions.{
  Extension, AttrRequest, Made, oid, padding, attr_key, attr_ks, attr_loop, header_put,
  enrollment_id_key_name, generate_extensions, fixed_extensions, header_extension,
}

module _ (hmac : Text → Text → Text) (cbc : Cbc) (laws : CbcLaws cbc) (prek0 : Text)
    (iv : ℕ → Text) where
  -- every derived key is one that AES takes, and every vector is one block
  abbrev pub Usable : Type 0
  Usable =
      ((name : Text) → cbc.valid_key (attr_key hmac cbc prek0 name) ≡ true)
      × ((i : ℕ) → length (iv i) ≡ block_size)

  -- each attribute's extension holds its value, behind the key that `ks` has for its name
  abbrev pub Opens : StrMap → List Attribute → List Extension → Type 0
  Opens ks [] es = Unit
  Opens ks (a ∷ attrs) [] = ⊥
  Opens ks (a ∷ attrs) (e ∷ es) =
      (cbc_pkcs7_decrypt cbc (map_get ks a.name) e.value ≡ returned (a.value ++ padding))
      × Opens ks attrs es

  abbrev Keyed : StrMap → Text → Type 0
  Keyed ks name = map_get ks name ≡ attr_key hmac cbc prek0 name

  -- what the loop makes of a list of attributes and a map of keys
  abbrev ResultOf : List Attribute → ℕ → StrMap → List (Text × ℕ) → Type 0
  ResultOf attrs count ks header =
      (m : Made) × (attr_loop hmac cbc true prek0 (λ i. some (iv i)) attrs count ks header ≡ ok m)
      × Opens m.ks attrs m.extensions
      × (length m.extensions ≡ length attrs)
      × ((name : Text) → Keyed ks name → Keyed m.ks name)
      × ((name : Text)
          → All (λ a. text_eq a.name name ≡ false) attrs
          → map_get m.ks name ≡ map_get ks name)

  Keyed-put :
      (a : Attribute) (ks : StrMap) (name : Text)
      → Keyed ks name
      → Keyed (attr_ks hmac cbc true prek0 a ks) name
  unfolding map_get
  Keyed-put a ks name h = elim (Bool-cases (text_eq a.name name)) [
    | inl e ↦ rw e (ap (attr_key hmac cbc prek0) ((text_eq_iff a.name name).0 e))
    | inr e ↦ rw e h
  ]

  Keyed-here : (a : Attribute) (ks : StrMap) → Keyed (attr_ks hmac cbc true prek0 a ks) a.name
  unfolding map_get
  Keyed-here a ks = rw (text_eq_refl a.name)

  passes :
      (a : Attribute) (ks : StrMap) (name : Text)
      → text_eq a.name name ≡ false
      → map_get (attr_ks hmac cbc true prek0 a ks) name ≡ map_get ks name
  unfolding map_get
  passes a ks name e = rw e

  attr_loop_lem :
      (attrs : List Attribute) (count : ℕ) (ks : StrMap) (header : List (Text × ℕ))
      → Usable
      → ResultOf attrs count ks header
  unfolding attr_loop
  attr_loop_lem [] count ks header u = (
    record { extensions = []; ks = ks; header = header },
    refl,
    tt,
    refl,
    λ name h. h,
    λ name h. refl,
  )
  attr_loop_lem (a ∷ attrs) count ks header u =
      let (ct, made, opened) =
        cbc_pkcs7_decrypt-encrypt cbc laws (attr_key hmac cbc prek0 a.name) (a.value ++ padding)
          (iv (count + 1)) (u.0 a.name) (u.1 (count + 1)) in
      let (m, rest, opens, size, keeps, leaves) =
        attr_loop_lem attrs (count + 1) (attr_ks hmac cbc true prek0 a ks)
          (header_put a.name (count + 1) header) u in
      let key = keeps a.name (Keyed-here a ks) in
      (
        record m {
          extensions =
              record { id = oid (9 + (count + 1)); critical = false; value = ct } ∷ m.extensions;
        },
        rw (made, rest),
        (rw key opened, opens),
        ap suc size,
        λ name h. keeps name (Keyed-put a ks name h),
        λ name h. leaves name h.1 ∙ passes a ks name h.0,
      )

  -- the extension of the enrollment id, behind those of the attributes
  abbrev pub IdOpens : Text → StrMap → List Attribute → List Extension → Type 0
  IdOpens common_name ks [] [] = ⊥
  IdOpens common_name ks [] (e ∷ []) = ⊥
  IdOpens common_name ks [] (e ∷ f ∷ es) =
      cbc_pkcs7_decrypt cbc (map_get ks enrollment_id_key_name) f.value
      ≡ returned (common_name ++ padding)
  IdOpens common_name ks (a ∷ attrs) [] = ⊥
  IdOpens common_name ks (a ∷ attrs) (e ∷ es) = IdOpens common_name ks attrs es

  -- no attribute has the name under which the enrollment id's key is returned
  abbrev pub NotIdNamed : List Attribute → Type 0
  NotIdNamed = All (λ a. text_eq a.name enrollment_id_key_name ≡ false)

Opens-append :
    (hmac : Text → Text → Text) (cbc : Cbc) (laws : CbcLaws cbc) (prek0 : Text) (iv : ℕ → Text)
    (ks : StrMap) (attrs : List Attribute) (es rest : List Extension)
    → Opens hmac cbc laws prek0 iv ks attrs es
    → Opens hmac cbc laws prek0 iv ks attrs (es ++ rest)
Opens-append hmac cbc laws prek0 iv ks [] es rest h = tt
Opens-append hmac cbc laws prek0 iv ks (a ∷ attrs) [] rest h = absurd h
Opens-append hmac cbc laws prek0 iv ks (a ∷ attrs) (e ∷ es) rest h =
    (h.0, Opens-append hmac cbc laws prek0 iv ks attrs es rest h.1)

IdOpens-append :
    (hmac : Text → Text → Text) (cbc : Cbc) (laws : CbcLaws cbc) (prek0 : Text) (iv : ℕ → Text)
    (common_name : Text) (ks : StrMap) (attrs : List Attribute) (es : List Extension)
    (e f : Extension) (rest : List Extension)
    → length es ≡ length attrs
    → cbc_pkcs7_decrypt cbc (map_get ks enrollment_id_key_name) f.value
      ≡ returned (common_name ++ padding)
    → IdOpens hmac cbc laws prek0 iv common_name ks attrs (es ++ e ∷ f ∷ rest)
IdOpens-append hmac cbc laws prek0 iv common_name ks [] [] e f rest size h = h
IdOpens-append hmac cbc laws prek0 iv common_name ks [] (d ∷ es) e f rest size h =
    absurd (omega arith)
IdOpens-append hmac cbc laws prek0 iv common_name ks (a ∷ attrs) [] e f rest size h =
    absurd (omega arith)
IdOpens-append hmac cbc laws prek0 iv common_name ks (a ∷ attrs) (d ∷ es) e f rest size h =
    IdOpens-append hmac cbc laws prek0 iv common_name ks attrs es e f rest (omega arith) h

-- With encryption asked for, keys and vectors that AES takes, and no attribute named "enrollmentId", the
-- extensions are made without an error, and the keys that come with them open them: each attribute's
-- extension holds its value (and the padding) behind the key returned under the attribute's name, and
-- the enrollment id's extension holds the enrollment id (and the padding) behind the key returned
-- under "enrollmentId".
pub generate_extensions-Opens :
    (hmac : Text → Text → Text) (cbc : Cbc) (laws : CbcLaws cbc)
    (order : List (Text × ℕ) → List (Text × ℕ)) (req : AttrRequest) (serial common_name tidx : Text)
    (iv : ℕ → Text)
    → req.encrypt_attrs ≡ true
    → NotIdNamed hmac cbc laws (hmac req.prekey serial) iv req.attrs
    → Usable hmac cbc laws (hmac req.prekey serial) iv
    → (es : List Extension) × (ks : StrMap) × (generate_extensions hmac cbc order req serial
          common_name tidx
          (λ i. some (iv i))
        ≡ ok (es, ks))
      × Opens hmac cbc laws (hmac req.prekey serial) iv ks req.attrs es
      × IdOpens hmac cbc laws (hmac req.prekey serial) iv common_name ks req.attrs es
unfolding generate_extensions map_get text_eq
generate_extensions-Opens hmac cbc laws order req serial common_name tidx iv on free u =
    let prek0 = hmac req.prekey serial in
    let id_key = attr_key hmac cbc prek0 (codes "enrollmentID") in
    let first : StrMap = (enrollment_id_key_name, id_key) ∷ [] in
    let (ct, made, opened) =
      cbc_pkcs7_decrypt-encrypt cbc laws id_key (common_name ++ padding) (iv 0)
        (u.0 (codes "enrollmentID")) (u.1 0) in
    let (m, looped, opens, size, keeps, leaves) =
      attr_loop_lem hmac cbc laws prek0 iv req.attrs 0 first [] u in
    let tail = fixed_extensions hmac cbc tidx ct ++ header_extension hmac cbc order req.attrs m in
    (
      m.extensions ++ tail,
      m.ks,
      rw (on, made, looped),
      Opens-append hmac cbc laws prek0 iv m.ks req.attrs m.extensions tail opens,
      IdOpens-append hmac cbc laws prek0 iv common_name m.ks req.attrs m.extensions
          (record { id = oid 7; critical = true; value = tidx })
          (record { id = oid 8; critical = false; value = ct })
          (header_extension hmac cbc order req.attrs m) size
          (rw (leaves enrollment_id_key_name free) opened),
    )

-- ===== src/TCert/Extensions/Layout.antt =====
-- Which extensions generateExtensions of lib/tcert/tcert.go makes, and in which order.
use copfvtci.Prelude.{
  ℕ, zero, suc, ◌+◌, ◌≡◌, refl, sym, ap, ◌∙◌, inl, inr, Bool, Option, List, [], ◌∷◌, ◌++◌, map,
  Text, codes, length, is_empty, arith, if◌then◌else◌,
}
use mathlib.Core.List.{map-append}
use copfvtci.Errors.{ok, Result-cases, ok-injective}
use copfvtci.Spi.{Attribute}
use copfvtci.Accessor.{StrMap}
use copfvtci.TCert.Cbc.{Cbc, cbc_pkcs7_encrypt}
use copfvtci.TCert.Extensions.{
  Extension, AttrRequest, Made, oid, padding, attr_key, attr_ks, header_put, attr_loop, attr_value,
  enrollment_id_key_name, generate_extensions, fixed_extensions, header_extension,
}

-- the identifiers of `n` attributes, the first of them at position `count` + 1
unfoldable pub attr_oids : ℕ → ℕ → List (List ℕ)
attr_oids zero count = []
attr_oids (suc n) count = oid (9 + (count + 1)) ∷ attr_oids n (count + 1)

abbrev pub ids : List Extension → List (List ℕ)
ids = map (λ e. e.id)

module _ (hmac : Text → Text → Text) (cbc : Cbc) where
  attr_loop-ids :
      (encrypt : Bool) (prek0 : Text) (ivs : ℕ → Option Text) (attrs : List Attribute) (count : ℕ)
      (ks : StrMap) (header : List (Text × ℕ)) (m : Made)
      → attr_loop hmac cbc encrypt prek0 ivs attrs count ks header ≡ ok m
      → ids m.extensions ≡ attr_oids (length attrs) count
  unfolding attr_loop attr_oids
  attr_loop-ids encrypt prek0 ivs [] count ks header m h = ground arith
  attr_loop-ids encrypt prek0 ivs (a ∷ attrs) count ks header m h =
      elim (Result-cases (attr_value hmac cbc encrypt prek0 (ivs (count + 1)) a)) [
        | inr (x, e) ↦ absurd (ground arith)
        | inl (v, e) ↦
            elim (Result-cases (
              attr_loop hmac cbc encrypt prek0 ivs attrs (count + 1)
                (attr_ks hmac cbc encrypt prek0 a ks) (header_put a.name (count + 1) header))) [
                  | inr (x, f) ↦ absurd (ground arith)
                  | inl (m', f) ↦
                      let made = ok-injective (rw (e, f) at h) in
                      ap (λ (k : Made). ids k.extensions) (sym made)
                      ∙ ap (λ t. oid (9 + (count + 1)) ∷ t)
                          (attr_loop-ids encrypt prek0 ivs attrs (count + 1)
                            (attr_ks hmac cbc encrypt prek0 a ks)
                            (header_put a.name (count + 1) header) m' f)
                ]
      ]

  -- the identifier of the attributes header, which is there if there are attributes
  abbrev pub header_ids : List Attribute → List (List ℕ)
  header_ids attrs = if is_empty attrs then [] else oid 9 ∷ []

  header_extension-ids :
      (order : List (Text × ℕ) → List (Text × ℕ)) (attrs : List Attribute) (m : Made)
      → ids (header_extension hmac cbc order attrs m) ≡ header_ids attrs
  header_extension-ids order [] m = refl
  header_extension-ids order (a ∷ attrs) m = refl

  abbrev tail_extensions :
      (List (Text × ℕ) → List (Text × ℕ)) → List Attribute → Text → Text → Made → List Extension
  tail_extensions order attrs tidx enc_id m =
      fixed_extensions hmac cbc tidx enc_id ++ header_extension hmac cbc order attrs m

  -- A TCert's extensions are, in this order: one for each attribute, at the identifiers 10, 11, … (the
  -- last number); the TCert index at 7; the enrollment id at 8; and, if there are attributes, their
  -- header at 9.
  pub generate_extensions-ids :
      (order : List (Text × ℕ) → List (Text × ℕ)) (req : AttrRequest)
      (serial common_name tidx : Text) (ivs : ℕ → Option Text) (es : List Extension) (ks : StrMap)
      → generate_extensions hmac cbc order req serial common_name tidx ivs ≡ ok (es, ks)
      → ids es ≡ attr_oids (length req.attrs) 0 ++ oid 7 ∷ oid 8 ∷ header_ids req.attrs
  unfolding generate_extensions
  generate_extensions-ids order req serial common_name tidx ivs es ks h =
      let prek0 = hmac req.prekey serial in
      let first : StrMap =
        (enrollment_id_key_name, attr_key hmac cbc prek0 (codes "enrollmentID")) ∷ [] in
      elim (Result-cases (
        cbc_pkcs7_encrypt cbc (attr_key hmac cbc prek0 (codes "enrollmentID"))
          (common_name ++ padding) (ivs 0))) [
            | inr (x, e) ↦ absurd (ground arith)
            | inl (enc_id, e) ↦
                elim (Result-cases
                  (attr_loop hmac cbc req.encrypt_attrs prek0 ivs req.attrs 0 first [])) [
                    | inr (x, f) ↦ absurd (ground arith)
                    | inl (m, f) ↦
                        ap (λ (p : List Extension × StrMap). ids p.0)
                          (sym (ok-injective (rw (e, f) at h)))
                        ∙ map-append (λ e. e.id) m.extensions
                            (tail_extensions order req.attrs tidx enc_id m)
                        ∙ ap (λ t. t ++ ids (tail_extensions order req.attrs tidx enc_id m))
                            (attr_loop-ids req.encrypt_attrs prek0 ivs req.attrs 0 first [] m f)
                        ∙ ap (λ t. attr_oids (length req.attrs) 0 ++ oid 7 ∷ oid 8 ∷ t)
                            (header_extension-ids order req.attrs m)
                  ]
          ]

-- ===== src/TCertHandler/Issued.antt =====
-- What the handler of cli/server/tcert.go has done when it returns a batch.
use mathlib.Core.List.{reverse}
use mathlib.Core.Path.{subst}
use copfvtci.Prelude.{
  ℕ, ◌≡◌, ◌≢◌, ◌⊎◌, ◌≤◌, refl, sym, ap, ◌∙◌, inl, inr, Option, none, some, List, [], ◌∷◌, Text,
  is_empty, is_empty_nil, length, ◌==◌, if◌then◌else◌, Bool-cases, Option-cases,
}
use copfvtci.Prelude.Int.{max_int}
use copfvtci.Errors.{Error, Result, ok, err, Result-cases, Outcome, returned, failed}
use copfvtci.Spi.{Attribute, User, UserRegistry}
use copfvtci.Token.{PublicKey, rsa, ecdsa, other, Crypto}
use copfvtci.KeyTree.{KeyTree}
use copfvtci.KeyTree.Cache.{Plain, derived, IsValid, get_key_lem}
use copfvtci.TCert.Batch.{GetBatchRequest, GetBatchResponse, Mgr, Issuer, batch_size, get_batch}
use copfvtci.TCert.Batch.Size.{get_batch-size}
use copfvtci.TCertHandler.{
  PrivateSignersRequest, attr_list, get_user_info, get_cert_from_auth_hdr, get_batch_for,
  handle_tcert, outcome_of,
}
use copfvtci.TCertHandler.Handling.{handle_tcert_lem}

-- the attributes are those of the names, in their order, for which the user has a value
abbrev pub Requested : (Text → Text) → List Text → List Attribute → Type 0
Requested value [] attrs = attrs ≡ []
Requested value (name ∷ names) attrs =
    ((value name ≡ []) × Requested value names attrs)
    ⊎ ((value name ≢ [])
        × (rest : List Attribute) × (attrs ≡ record { name = name; value = value name } ∷ rest)
        × Requested value names rest)

attr_list-Requested :
    (value : Text → Text) (names : List Text) → Requested value names (attr_list value names)
unfolding attr_list
attr_list-Requested value [] = refl
attr_list-Requested value (name ∷ names) = elim (Bool-cases (is_empty (value name))) [
  | inl e ↦ inl (is_empty_nil (value name) e, rw e (attr_list-Requested value names))
  | inr e ↦ inr (
    λ h. cc (sym e ∙ ap is_empty h),
    attr_list value names,
    rw e refl,
    attr_list-Requested value names,
  )
]

failed-ne-returned : {A : Type 0} {a : A} {e : Error} → failed e ≢ returned a
failed-ne-returned h = cc

module _ {S Cert Pub Priv K : Type 0} (reg : UserRegistry S) (c : Crypto Cert Pub Priv)
    (common_name : Cert → Text) (derive : K → Text → Option K) (ski : K → Text) (issuer : Issuer)
    (tm : Mgr) (nonce : Text) (kdf_key : Cert → Text) (random : ℕ) where
  get_batch_for-returned :
      (key : PublicKey Pub) (req : GetBatchRequest) (x : Cert) (resp : GetBatchResponse)
      → get_batch_for reg c common_name derive ski issuer tm nonce kdf_key random key req x
        ≡ returned resp
      → (k : Pub) × (key ≡ ecdsa k)
        × (get_batch issuer tm req (common_name x) nonce (kdf_key x) random ≡ ok resp)
  unfolding get_batch_for
  get_batch_for-returned (ecdsa k) req x resp h = (
    k,
    refl,
    outcome_of-returned (get_batch issuer tm req (common_name x) nonce (kdf_key x) random) h,
  )
    where
      outcome_of-returned :
          (r : Result GetBatchResponse) → outcome_of r ≡ returned resp → r ≡ ok resp
      outcome_of-returned (ok a) h = cc
      outcome_of-returned (err e) h = absurd (cc)
  get_batch_for-returned (rsa k) req x resp h = elim (Result-cases (batch_size tm req.count)) [
    | inl (n, e) ↦ absurd (cc (sym (rw e at h)))
    | inr (z, e) ↦ absurd (failed-ne-returned (rw e at h))
  ]
  get_batch_for-returned other req x resp h = elim (Result-cases (batch_size tm req.count)) [
    | inl (n, e) ↦ absurd (cc (sym (rw e at h)))
    | inr (z, e) ↦ absurd (failed-ne-returned (rw e at h))
  ]

  module _ (parse : Text → Option PrivateSignersRequest) (root : K) where
    -- what stands behind a batch for a request's token and body, and the state that is left
    abbrev pub Issued : Text → Option Text → S → GetBatchResponse → S × KeyTree K → Type 0
    Issued authorization body s resp (s', tree') =
        (b : Text) × (req : PrivateSignersRequest) × (x : Cert) × (k : Pub) × (u : User S)
        × (key : K) × (attrs : List Attribute) × (body ≡ some b)
        × (parse b ≡ some req)
        × (get_cert_from_auth_hdr c authorization ≡ ok x)
        × (c.public_key x ≡ ecdsa k)
        × (reg.get_user (common_name x) req.attr_names s ≡ (ok u, s'))
        × (derived derive root (reverse u.affiliation_path) ≡ some key)
        × Requested u.get_attribute req.attr_names attrs
        × (get_batch issuer tm
              (record {
                count = req.count;
                attr_request = record {
                  attrs = attrs;
                  encrypt_attrs = req.encrypt_attrs;
                  prekey = ski key;
                };
                requested_period = req.validity_period;
              })
              (common_name x) nonce (kdf_key x) random
            ≡ ok resp)
        × (length resp.tcerts ≡ (if req.count == 0 then tm.max_allowed_batch_size else req.count))
        × IsValid derive root tree'

    abbrev run : Text → Option Text → S × KeyTree K → Outcome GetBatchResponse × (S × KeyTree K)
    run authorization body st =
        handle_tcert reg c common_name derive ski issuer tm nonce kdf_key random parse authorization
          body st

    run-Issued :
        (authorization b : Text) (s : S) (tree : KeyTree K) (resp : GetBatchResponse)
        (req : PrivateSignersRequest) (x : Cert) (u : User S) (key : K)
        → tm.max_allowed_batch_size ≤ max_int
        → Plain u.affiliation_path
        → IsValid derive root tree
        → parse b ≡ some req
        → get_cert_from_auth_hdr c authorization ≡ ok x
        → (reg.get_user (common_name x) req.attr_names s).0 ≡ ok u
        → derived derive root (reverse u.affiliation_path) ≡ some key
        → (run authorization (some b) (s, tree)).0 ≡ returned resp
        → Issued authorization (some b) s resp (run authorization (some b) (s, tree)).1
    run-Issued authorization b s tree resp req x u key fits plain valid parsed given known at_key
          h =
        let (tree', done, valid') =
          handle_tcert_lem reg c common_name derive ski issuer tm nonce kdf_key random parse root
            authorization b req x u s tree key parsed given known plain valid at_key in
        let (k, kind, made) =
          get_batch_for-returned (c.public_key x) _ x resp (sym (ap (λ r. r.0) done) ∙ h) in
        let left = ap (λ (r : Outcome GetBatchResponse × (S × KeyTree K)). r.1) done in
        (
          b,
          req,
          x,
          k,
          u,
          key,
          attr_list u.get_attribute req.attr_names,
          refl,
          parsed,
          given,
          kind,
          ap (λ (r : Result (User S)). (r, (reg.get_user (common_name x) req.attr_names s).1)) known
              ∙ ap (λ (st : S × KeyTree K). (ok u, st.0)) (sym left),
          at_key,
          attr_list-Requested u.get_attribute req.attr_names,
          made,
          (get_batch-size issuer tm _ (common_name x) nonce (kdf_key x) random resp fits made).0,
          subst (λ (st : S × KeyTree K). IsValid derive root st.1) (sym left) valid',
        )

    -- If the handler returns a batch, then the body decodes to a request, the token's certificate has an
    -- ECDSA key, and the registry knows its common name. The batch is the one that GetBatch makes for that
    -- certificate, with the count, the period and the encryption of the request, with exactly those
    -- requested attributes, in their order, for which the user has a value, and with the key that is derived
    -- from the root along the user's affiliation as the prekey. It has as many certificates as were
    -- requested, or the configured maximum if 0 were. The registry is left as its lookup left it, and the
    -- key tree's cache stays right. The maximum fits an int, and the names of an affiliation hold no '/'.
    pub handle_tcert-Issued :
        (authorization : Text) (body : Option Text) (s : S) (tree : KeyTree K)
        (resp : GetBatchResponse)
        → tm.max_allowed_batch_size ≤ max_int
        → ((id : Text) (names : List Text) (st : S) (u : User S)
            → (reg.get_user id names st).0 ≡ ok u
            → Plain u.affiliation_path)
        → IsValid derive root tree
        → (run authorization body (s, tree)).0 ≡ returned resp
        → Issued authorization body s resp (run authorization body (s, tree)).1
    unfolding handle_tcert get_user_info
    handle_tcert-Issued authorization none s tree resp fits plain valid h =
        absurd (failed-ne-returned h)
    handle_tcert-Issued authorization (some b) s tree resp fits plain valid h =
        elim (Option-cases (parse b)) [
          | inl e ↦ absurd (failed-ne-returned (rw e at h))
          | inr (req, e) ↦ elim (Result-cases (get_cert_from_auth_hdr c authorization)) [
            | inr (z, f) ↦ absurd (failed-ne-returned (rw (e, f) at h))
            | inl (x, f) ↦ elim (Result-cases (reg.get_user (common_name x) req.attr_names s).0) [
              | inr (z, g) ↦ absurd (failed-ne-returned (rw (e, f, g) at h))
              | inl (u, g) ↦
                  let known = plain (common_name x) req.attr_names s u g in
                  let (at_key, _) = get_key_lem derive root u.affiliation_path tree known valid in
                  elim (Option-cases (derived derive root (reverse u.affiliation_path))) [
                    | inl k ↦ absurd (failed-ne-returned (rw (e, f, g, at_key, k) at h))
                    | inr (key, k) ↦
                        run-Issued authorization b s tree resp req x u key fits known valid e f g k
                          h
                  ]
            ]
          ]
        ]

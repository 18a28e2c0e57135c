-- ===== src/TCertHandler/Handling.antt =====
-- What the handler of cli/server/tcert.go asks of the key tree and of GetBatch.
use mathlib.Core.List.{reverse}
use copfvtci.Prelude.{ℕ, ◌≡◌, ◌≢◌, refl, ap, ◌∙◌, Option, some, List, Text}
use copfvtci.Errors.{ok, Outcome, panicked}
use copfvtci.Spi.{Attribute, User, UserRegistry}
use copfvtci.Token.{PublicKey, rsa, ecdsa, other, Crypto}
use copfvtci.KeyTree.{KeyTree, get_key}
use copfvtci.KeyTree.Cache.{Plain, derived, IsValid, get_key_lem}
use copfvtci.TCert.Batch.{GetBatchResponse, Mgr, Issuer, batch_size}
use copfvtci.TCertHandler.{
  PrivateSignersRequest, attr_list, get_user_info, get_cert_from_auth_hdr, batch_request,
  get_batch_for, handle_tcert,
}

module _ {S Cert Pub Priv K : Type 0} (reg : UserRegistry S) (c : Crypto Cert Pub Priv)
    (common_name : Cert → Text) (derive : K → Text → Option K) (ski : K → Text) (issuer : Issuer)
    (tm : Mgr) (nonce : Text) (kdf_key : Cert → Text) (random : ℕ)
    (parse : Text → Option PrivateSignersRequest) (root : K) where
  -- A request that decodes, with a token whose certificate decodes, of a caller whom the registry knows,
  -- on a key tree whose cache is right: the handler issues the batch for the caller's certificate, with
  -- the requested names' attributes that the caller has, and with the key that is derived from the root
  -- along the caller's affiliation for its prekey. The registry is left as its lookup left it, and the
  -- key tree's cache stays right. The names of the affiliation hold no '/', and their keys derive.
  pub handle_tcert_lem :
      (authorization body : Text) (req : PrivateSignersRequest) (x : Cert) (u : User S) (s : S)
      (tree : KeyTree K) (key : K)
      → parse body ≡ some req
      → get_cert_from_auth_hdr c authorization ≡ ok x
      → (reg.get_user (common_name x) req.attr_names s).0 ≡ ok u
      → Plain u.affiliation_path
      → IsValid derive root tree
      → derived derive root (reverse u.affiliation_path) ≡ some key
      → (tree' : KeyTree K) × (handle_tcert reg c common_name derive ski issuer tm nonce kdf_key
            random parse authorization
            (some body)
            (s, tree)
          ≡ (
            get_batch_for reg c common_name derive ski issuer tm nonce kdf_key random
                (c.public_key x)
                (batch_request reg c common_name derive ski req
                  (attr_list u.get_attribute req.attr_names)
                  key)
                x,
            ((reg.get_user (common_name x) req.attr_names s).1, tree'),
          ))
        × IsValid derive root tree'
  unfolding handle_tcert get_user_info
  handle_tcert_lem authorization body req x u s tree key parsed given known plain valid at_key =
      let (found, valid') = get_key_lem derive root u.affiliation_path tree plain valid in
      ((get_key derive u.affiliation_path tree).1, rw (parsed, given, known, found, at_key), valid')

  get_batch_for-panicked :
      (k : PublicKey Pub) (req : PrivateSignersRequest) (attrs : List Attribute) (key : K)
      (x : Cert) (n : ℕ)
      → ((p : Pub) → k ≢ ecdsa p)
      → batch_size tm req.count ≡ ok n
      → get_batch_for reg c common_name derive ski issuer tm nonce kdf_key random k
          (batch_request reg c common_name derive ski req attrs key)
          x
        ≡ panicked
  unfolding get_batch_for
  get_batch_for-panicked (rsa p) req attrs key x n kind size = rw size
  get_batch_for-panicked (ecdsa p) req attrs key x n kind size = absurd (kind p refl)
  get_batch_for-panicked other req attrs key x n kind size = rw size

  -- Such a request panics if the caller's certificate has a key that is not an ECDSA key (an RSA key, as
  -- VerifyToken accepts) and the requested count is allowed.
  pub handle_tcert_panicked :
      (authorization body : Text) (req : PrivateSignersRequest) (x : Cert) (u : User S) (s : S)
      (tree : KeyTree K) (key : K) (n : ℕ)
      → parse body ≡ some req
      → get_cert_from_auth_hdr c authorization ≡ ok x
      → (reg.get_user (common_name x) req.attr_names s).0 ≡ ok u
      → Plain u.affiliation_path
      → IsValid derive root tree
      → derived derive root (reverse u.affiliation_path) ≡ some key
      → ((p : Pub) → c.public_key x ≢ ecdsa p)
      → batch_size tm req.count ≡ ok n
      → (handle_tcert reg c common_name derive ski issuer tm nonce kdf_key random parse
          authorization
          (some body)
          (s, tree)).0
        ≡ panicked
  handle_tcert_panicked authorization body req x u s tree key n parsed given known plain valid
        at_key kind size =
      let (tree', handled, valid') =
        handle_tcert_lem authorization body req x u s tree key parsed given known plain valid
          at_key in
      ap (λ (r : Outcome GetBatchResponse × (S × KeyTree K)). r.0) handled
      ∙ get_batch_for-panicked (c.public_key x) req (attr_list u.get_attribute req.attr_names) key x
          n kind size

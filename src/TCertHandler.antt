-- ===== src/TCertHandler.antt =====
-- cli/server/tcert.go: the handler of requests for transaction certificates. It decodes the caller's
-- certificate from the token (Token), asks the user registry for the caller's attributes (Spi), gets the
-- prekey of the caller's affiliation from the key tree (KeyTree) and issues a batch (TCert.Batch). The
-- registry and the key tree are its state. JSON and the SKI of a key are parameters.
pub mod Caller
pub mod Handling
pub mod Issued
use copfvtci.Prelude.{
  ℕ, Bool, true, false, not, Option, none, some, List, [], ◌∷◌, Text, is_empty, if◌then◌else◌,
}
use copfvtci.Prelude.Int.{ℤ}
use copfvtci.Errors.{
  Error, Result, ok, err, Method, ◌>>=◌, ◌>>◌, pure, no_auth_hdr, library_error, Outcome, returned,
  failed, panicked,
}
use copfvtci.Spi.{Attribute, User, UserRegistry}
use copfvtci.Token.{PublicKey, rsa, ecdsa, other, Crypto, decode_token}
use copfvtci.KeyTree.{KeyTree, get_key}
use copfvtci.TCert.Extensions.{AttrRequest}
use copfvtci.TCert.Batch.{Mgr, GetBatchRequest, GetBatchResponse, Issuer, batch_size, get_batch}

-- idp.GetPrivateSignersRequest
pub record PrivateSignersRequest : Type 0 where
  pub count : ℕ
  pub attr_names : List Text
  pub encrypt_attrs : Bool
  pub validity_period : ℤ

-- `if value != "" { attrs = append(attrs, …) }`
abbrev cons_value : Text → Text → List Attribute → List Attribute
cons_value name value attrs =
    if not (is_empty value) then record { name = name; value = value } ∷ attrs else attrs

-- the loop over the names that were asked for
unfoldable pub attr_list : (Text → Text) → List Text → List Attribute
attr_list get_attribute [] = []
attr_list get_attribute (name ∷ names) =
    cons_value name (get_attribute name) (attr_list get_attribute names)

-- getUserInfo
unfoldable pub get_user_info :
    {S : Type 0} → UserRegistry S → Text → List Text → Method S (List Attribute × List Text)
get_user_info reg id names = do
  user ← reg.get_user id names
  pure (attr_list user.get_attribute names, user.affiliation_path)

abbrev cert_part : {Cert : Type 0} → Result (Cert × Text × Text) → Result Cert
cert_part (err e) = err e
cert_part (ok (cert, b64cert, sig)) = ok cert

-- getCertFromAuthHdr
unfoldable pub get_cert_from_auth_hdr :
    {Cert Pub Priv : Type 0} → Crypto Cert Pub Priv → Text → Result Cert
get_cert_from_auth_hdr c authorization =
    if is_empty authorization then err no_auth_hdr else cert_part (decode_token c authorization)

abbrev pub outcome_of : {A : Type 0} → Result A → Outcome A
outcome_of (ok a) = returned a
outcome_of (err e) = failed e

-- a type assertion that does not hold, behind the test of the count
abbrev asserted : {A : Type 0} → Result ℕ → Outcome A
asserted (err e) = failed e
asserted (ok n) = panicked

module _ {S Cert Pub Priv K : Type 0} (reg : UserRegistry S) (c : Crypto Cert Pub Priv)
    (common_name : Cert → Text) (derive : K → Text → Option K) (ski : K → Text) where
  abbrev pub Handled : Type 0 → Type 0
  Handled A = S × KeyTree K → Outcome A × (S × KeyTree K)

  abbrev pub failing : {A : Type 0} → Error → Handled A
  failing e st = (failed e, st)

  abbrev from : {A B : Type 0} → Result A → (A → Handled B) → Handled B
  from (err e) rest = failing e
  from (ok a) rest = rest a

  abbrev on_registry : {A B : Type 0} → Method S A → (A → Handled B) → Handled B
  on_registry m rest (s, tree) = from (m s).0 rest ((m s).1, tree)

  abbrev on_tree : {B : Type 0} → List Text → (K → Handled B) → Handled B
  on_tree path rest (s, tree) =
      let (key, tree') = get_key derive path tree in from key rest (s, tree')

  abbrev pub batch_request : PrivateSignersRequest → List Attribute → K → GetBatchRequest
  batch_request req attrs key = record {
    count = req.count;
    attr_request = record { attrs = attrs; encrypt_attrs = req.encrypt_attrs; prekey = ski key };
    requested_period = req.validity_period;
  }

  module _ (issuer : Issuer) (tm : Mgr) (nonce : Text) (kdf_key : Cert → Text) (random : ℕ) where
    -- GetBatch asserts that the caller's key is an ECDSA key, behind the test of the count
    unfoldable pub get_batch_for : PublicKey Pub → GetBatchRequest → Cert → Outcome GetBatchResponse
    get_batch_for (ecdsa k) req cert =
        outcome_of (get_batch issuer tm req (common_name cert) nonce (kdf_key cert) random)
    get_batch_for (rsa k) req cert = asserted (batch_size tm req.count)
    get_batch_for other req cert = asserted (batch_size tm req.count)

    abbrev issue_for :
        PrivateSignersRequest → Cert → List Attribute × List Text → Handled GetBatchResponse
    issue_for req cert (attrs, path) =
        on_tree path
          (λ key st. (get_batch_for (c.public_key cert) (batch_request req attrs key) cert, st))

    abbrev handle_request : Text → PrivateSignersRequest → Handled GetBatchResponse
    handle_request authorization req = from (get_cert_from_auth_hdr c authorization) (λ cert.
        on_registry (get_user_info reg (common_name cert) req.attr_names) (issue_for req cert))

    abbrev handle_parsed : Text → Option PrivateSignersRequest → Handled GetBatchResponse
    handle_parsed authorization none = failing library_error
    handle_parsed authorization (some req) = handle_request authorization req

    -- handle, up to the response; `none` if reading the body fails
    unfoldable pub handle_tcert :
        (Text → Option PrivateSignersRequest) → Text → Option Text → Handled GetBatchResponse
    handle_tcert parse authorization none = failing library_error
    handle_tcert parse authorization (some body) = handle_parsed authorization (parse body)

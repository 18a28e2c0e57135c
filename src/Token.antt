-- ===== src/Token.antt =====
-- CreateToken, VerifyToken and DecodeToken of util/util.go: a token is a certificate and a signature over
-- the body of a request and that certificate. PEM, X.509, base64, SHA-384, RSA, ECDSA and ASN.1 are Go's:
-- a `Crypto` holds them. Big numbers are ℕ.
pub mod Soundness
use copfvtci.Prelude.{
  ℕ, Option, none, some, List, [], ◌∷◌, ◌++◌, Text, is_empty, if◌then◌else◌, Bool, true, false,
}
use copfvtci.Strings.SplitJoin.{split}
use copfvtci.Errors.{Result, ok, err, library_error, Error}

-- the type switch on x509Cert.PublicKey
pub data PublicKey (Pub : Type 0) : Type 0 where
  rsa ecdsa : Pub → PublicKey Pub
  other : PublicKey Pub

pub record Crypto (Cert Pub Priv : Type 0) : Type 0 where
  pub pem_decode : Text → Option Text
  pub parse_certificate : Text → Option Cert
  pub public_key : Cert → PublicKey Pub
  pub parse_rsa_key : Text → Option Priv
  pub parse_ec_key : Text → Option Priv
  pub b64_encode : Text → Text
  pub b64_decode : Text → Option Text
  pub sha384 : Text → Text
  pub rsa_sign : Priv → Text → Option Text
  pub rsa_verify : Pub → Text → Text → Bool
  pub ecdsa_sign : Priv → Text → Option (ℕ × ℕ)
  pub ecdsa_verify : Pub → Text → ℕ × ℕ → Bool
  -- asn1 on an ECDSASignature
  pub marshal : ℕ × ℕ → Option Text
  pub unmarshal : Text → Option (ℕ × ℕ)

-- the error returns: `x, err := …; if err != nil { return err }`, then the rest
abbrev pub checked : {A B : Type 0} → Option A → (A → Result B) → Result B
checked none rest = err library_error
checked (some a) rest = rest a

abbrev pub after : {A B : Type 0} → Result A → (A → Result B) → Result B
after (err e) rest = err e
after (ok a) rest = rest a

module _ {Cert Pub Priv : Type 0} (c : Crypto Cert Pub Priv) where
  unfoldable pub get_rsa_private_key : Text → Result Priv
  get_rsa_private_key raw =
      checked (c.pem_decode raw) λ block. checked (c.parse_rsa_key block) λ key. ok key

  unfoldable pub get_ec_private_key : Text → Result Priv
  get_ec_private_key raw =
      checked (c.pem_decode raw) λ block. checked (c.parse_ec_key block) λ key. ok key

  -- what is hashed and signed: the body, a period, and the certificate as it stands in the token
  abbrev pub digest : Text → Text → Text
  digest body b64cert = c.sha384 (c.b64_encode body ++ b'.' ∷ b64cert)

  abbrev pub token_with : Text → Text → Text
  token_with cert sig = c.b64_encode cert ++ b'.' ∷ c.b64_encode sig

  unfoldable pub gen_rsa_token : Text → Text → Text → Result Text
  gen_rsa_token cert key body = after (get_rsa_private_key key) λ priv.
      checked (c.rsa_sign priv (digest body (c.b64_encode cert))) λ sig. ok (token_with cert sig)

  unfoldable pub gen_ecdsa_token : Text → Text → Text → Result Text
  gen_ecdsa_token cert key body = after (get_ec_private_key key) λ priv.
      checked (c.ecdsa_sign priv (digest body (c.b64_encode cert)))
        λ rs. checked (c.marshal rs) λ sig. ok (token_with cert sig)

  -- the type switch; with no case for the key's type, the token stays ""
  unfoldable pub token_by : PublicKey Pub → Text → Text → Text → Result Text
  token_by (rsa k) cert key body = gen_rsa_token cert key body
  token_by (ecdsa k) cert key body = gen_ecdsa_token cert key body
  token_by other cert key body = ok []

  -- CreateToken
  unfoldable pub create_token : Text → Text → Text → Result Text
  create_token cert key body =
      checked (c.pem_decode cert)
        λ block. checked (c.parse_certificate block) λ x. token_by (c.public_key x) cert key body

  -- the body of DecodeToken behind the split
  unfoldable pub decode_parts : List Text → Result (Cert × Text × Text)
  decode_parts (b64cert ∷ sig ∷ []) = checked (c.b64_decode b64cert) λ raw.
      checked (c.pem_decode raw)
        λ block. checked (c.parse_certificate block) λ x. ok (x, b64cert, sig)
  decode_parts _ = err library_error

  unfoldable pub decode_token : Text → Result (Cert × Text × Text)
  decode_token token = if is_empty token then err library_error else decode_parts (split token b'.')

  abbrev accepted : Cert → Bool → Result Cert
  accepted x true = ok x
  accepted x false = err library_error

  -- the type switch of VerifyToken; with no case for the key's type, nothing is verified
  unfoldable pub verify_by : Cert → PublicKey Pub → Text → Text → Result Cert
  verify_by x (rsa k) h sig = accepted x (c.rsa_verify k h sig)
  verify_by x (ecdsa k) h sig = checked (c.unmarshal sig) λ rs. accepted x (c.ecdsa_verify k h rs)
  verify_by x other h sig = ok x

  -- VerifyToken
  unfoldable pub verify_token : Text → Text → Result Cert
  verify_token token body = after (decode_token token) λ (x, b64cert, b64sig).
      checked (c.b64_decode b64sig) λ sig. verify_by x (c.public_key x) (digest body b64cert) sig

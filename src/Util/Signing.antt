-- ===== src/Util/Signing.antt =====
-- util/cryptoutil.go: signatures over a text, kept in a JSON text beside the certificate. The libraries for
-- PEM, X.509, base64, RSA, ECDSA and SHA-384, the decimal texts of a big.Int, the clock and the random
-- bytes (in what signs and in the new key) are parameters. GenNumber is in TCert.Numbers.
pub mod Verifying
pub mod RoundTrip
use copfvtci.Prelude.{
  ℕ, ◌+◌, Bool, true, false, Option, none, some, List, [], ◌∷◌, Text, codes, if◌then◌else◌,
}
use copfvtci.Accessor.{StrMap}
use copfvtci.Errors.{
  Result, ok, err, library_error, Run, finished, errored, crashed, exited, then_run,
}
use copfvtci.Util.Validity.{Period, validate_cert}
use copfvtci.Util.Json.{Objects, or_exit, read_json_as_map_string, write_json_to_string}

-- the dynamic type of a certificate's public key
pub data PublicKey (Rsa Ec : Type 0) : Type 0 where
  nil_key : PublicKey Rsa Ec
  rsa_key : Rsa → PublicKey Rsa Ec
  dsa_key : PublicKey Rsa Ec
  ecdsa_key : Ec → PublicKey Rsa Ec
  unknown_key : PublicKey Rsa Ec

pub record Signing (Cert Rsa Ec RsaPriv EcPriv : Type 0) : Type 0 where
  pub pem_decode : Text → Option Text
  pub parse_certificates : Text → Option (List Cert)
  pub parse_certificate : Text → Option Cert
  pub period : Cert → Period
  pub public_key : Cert → PublicKey Rsa Ec
  pub parse_pkcs1 : Text → Option RsaPriv
  pub parse_pkix : Text → Option (PublicKey Rsa Ec)
  -- what DecodeString returns, whether or not it fails
  pub b64_decode : Text → Text
  pub b64_encode : Text → Text
  pub sha384 : Text → Text
  pub rsa_sign : RsaPriv → Text → Option Text
  pub rsa_verify : Rsa → Text → Text → Bool
  pub ecdsa_sign : EcPriv → Text → Option (ℕ × ℕ)
  pub ecdsa_verify : Ec → Text → ℕ × ℕ → Bool
  -- big.Int: String, and what SetString to the base 10 leaves
  pub decimal : ℕ → Text
  pub number : Text → ℕ
  -- NewSelfSignedCert: ecdsa.GenerateKey, and x509.CreateCertificate for a template that begins and ends
  -- at the two times, with the key
  pub generate_key : Option EcPriv
  pub create_certificate : Period → EcPriv → Option Text

abbrev pub or_error {ℓ} : {A : Type ℓ} → Option A → Result A
or_error none = err library_error
or_error (some a) = ok a

abbrev pub or_fatal {ℓ} : {A : Type ℓ} → Result A → Run A
or_fatal (ok a) = finished a
or_fatal (err e) = exited

module _ {Cert Rsa Ec RsaPriv EcPriv F Map : Type 0} (lib : Signing Cert Rsa Ec RsaPriv EcPriv)
    (objects : Objects F Map) where
  abbrev key_of_block : Option Text → Result RsaPriv
  key_of_block none = err library_error
  key_of_block (some block) = or_error (lib.parse_pkcs1 block)

  -- GetPrivateKey
  unfoldable pub get_private_key : Text → Result RsaPriv
  get_private_key text = key_of_block (lib.pem_decode text)

  -- pubKey.(*rsa.PublicKey)
  abbrev pub as_rsa : Option (PublicKey Rsa Ec) → Run Rsa
  as_rsa none = errored library_error
  as_rsa (some (rsa_key k)) = finished k
  as_rsa (some _) = crashed

  abbrev public_of_block : Option Text → Run Rsa
  public_of_block none = errored library_error
  public_of_block (some block) = as_rsa (lib.parse_pkix block)

  -- GetPublicKey
  unfoldable pub get_public_key : Text → Run Rsa
  get_public_key text = public_of_block (lib.pem_decode text)

  abbrev pub b64_signature : Option Text → Run Text
  b64_signature none = exited
  b64_signature (some sig) = finished (lib.b64_encode sig)

  -- RSASign and RSAVerifySig; the name of the hash is not read
  unfoldable pub rsa_sign : Text → RsaPriv → Run Text
  rsa_sign message key = b64_signature (lib.rsa_sign key (lib.sha384 message))

  unfoldable pub rsa_verify_sig : Rsa → Text → Text → Bool
  rsa_verify_sig key signature message =
      lib.rsa_verify key (lib.sha384 message) (lib.b64_decode signature)

  unfoldable pub verify_rsa_message_impl : Text → Text → Rsa → Run Bool
  verify_rsa_message_impl text signed key =
      then_run (read_json_as_map_string objects signed (codes "RSASignature"))
        λ signature. finished (rsa_verify_sig key signature text)

  unfoldable pub verify_ec_message_impl : Text → Text → Ec → Run Bool
  verify_ec_message_impl text signed key =
      then_run (read_json_as_map_string objects signed (codes "ECSignature.R")) λ r.
        then_run (read_json_as_map_string objects signed (codes "ECSignature.S"))
          λ s. finished (lib.ecdsa_verify key (lib.sha384 text) (lib.number r, lib.number s))

  -- cert.PublicKey.(*ecdsa.PublicKey)
  abbrev as_ecdsa : PublicKey Rsa Ec → Run Ec
  as_ecdsa (ecdsa_key k) = finished k
  as_ecdsa _ = crashed

  -- VerifyECMessage, whose last part is VerifyECMessageImpl once more
  unfoldable pub verify_ec_message : Text → Text → Run Bool
  verify_ec_message text signed =
      then_run (read_json_as_map_string objects signed (codes "Certificate")) λ ecert.
        then_run (or_exit (lib.parse_certificate (lib.b64_decode ecert)))
          λ cert. then_run (as_ecdsa (lib.public_key cert)) (verify_ec_message_impl text signed)

  -- certificates[0], and ValidateCert
  abbrev pub unexpired : ℕ → List Cert → Run Cert
  unexpired now [] = crashed
  unexpired now (x ∷ xs) = if validate_cert now (lib.period x) then finished x else exited

  abbrev pub der_of : Text → Text
  der_of buf = elim (lib.pem_decode buf) [ none ↦ buf | some block ↦ block ]

  -- the type switch; a DSA key is none that VerifyMessage verifies with
  abbrev pub verify_by : Text → Text → PublicKey Rsa Ec → Run Bool
  verify_by text signed nil_key = exited
  verify_by text signed (rsa_key k) = verify_rsa_message_impl text signed k
  verify_by text signed dsa_key = finished false
  verify_by text signed (ecdsa_key k) = verify_ec_message_impl text signed k
  verify_by text signed unknown_key = exited

  -- VerifyMessage; its two branches differ in which bytes they parse
  unfoldable pub verify_message : ℕ → Text → Text → Run Bool
  verify_message now text signed =
      then_run (read_json_as_map_string objects signed (codes "Certificate")) λ ecert.
        then_run (or_exit (lib.parse_certificates (der_of (lib.b64_decode ecert)))) λ certs.
          then_run (unexpired now certs) λ cert. verify_by text signed (lib.public_key cert)

  abbrev hour : ℕ
  hour = 3600000000000

  abbrev with_key : Option EcPriv → (EcPriv → Option Text) → Result (Text × EcPriv)
  with_key none make = err library_error
  with_key (some key) make = elim (make key) [
    | none ↦ err library_error
    | some cert ↦ ok (cert, key)
  ]

  -- NewSelfSignedCert
  unfoldable pub new_self_signed_cert : ℕ → Result (Text × EcPriv)
  new_self_signed_cert now =
      with_key lib.generate_key
        (lib.create_certificate (record { not_before = now; not_after = now + hour }))

  unfoldable pub ecdsa_sign_direct : EcPriv → Text → Result (ℕ × ℕ)
  ecdsa_sign_direct key message = or_error (lib.ecdsa_sign key (lib.sha384 message))

  -- SignECMessage and RSASignJSON; `range` is the order in which Go takes the entries of the new map
  unfoldable pub sign_ec_message : ℕ → (StrMap → StrMap) → Text → Text → Run Text
  sign_ec_message now range text signed =
      then_run (or_fatal (new_self_signed_cert now)) λ (cert, key).
        then_run (or_fatal (ecdsa_sign_direct key text)) λ (r, s).
          write_json_to_string objects signed (
            range (
              (codes "ECSignature.R", lib.decimal r)
              ∷ (codes "ECSignature.S", lib.decimal s)
              ∷ (codes "Certificate", lib.b64_encode cert)
              ∷ []))

  unfoldable pub rsa_sign_json : (StrMap → StrMap) → Text → Text → RsaPriv → Text → Run Text
  rsa_sign_json range text signed key cert = then_run (rsa_sign text key) λ signature.
      write_json_to_string objects signed
        (range ((codes "RSASignature", signature) ∷ (codes "Certificate", cert) ∷ []))

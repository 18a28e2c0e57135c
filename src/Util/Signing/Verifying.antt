-- ===== src/Util/Signing/Verifying.antt =====
-- What a message that VerifyMessage of util/cryptoutil.go accepts shows.
use copfvtci.Prelude.{
  ℕ, ◌≡◌, ◌<◌, inl, inr, sym, ap, ◌∙◌, true, Option, none, some, List, [], ◌∷◌, Text, codes,
  Bool-cases,
}
use copfvtci.Errors.{finished, then_run-finished, finished-injective}
use copfvtci.Util.Validity.{validate_cert, validate_cert_lem}
use copfvtci.Util.Json.{Objects, or_exit, read_json_as_map_string}
use copfvtci.Util.Signing.{
  Signing, PublicKey, nil_key, rsa_key, dsa_key, ecdsa_key, unknown_key, rsa_verify_sig,
  verify_rsa_message_impl, verify_ec_message_impl, der_of, unexpired, verify_by, verify_message,
}

or_exit-finished : {A : Type 0} (o : Option A) (a : A) → or_exit o ≡ finished a → o ≡ some a
or_exit-finished none a h = absurd (cc)
or_exit-finished (some b) a h = ap some (finished-injective h)

module _ {Cert Rsa Ec RsaPriv EcPriv F Map : Type 0} (lib : Signing Cert Rsa Ec RsaPriv EcPriv)
    (objects : Objects F Map) where
  unexpired-finished :
      (now : ℕ) (certs : List Cert) (x : Cert)
      → unexpired lib objects now certs ≡ finished x
      → ((rest : List Cert) × (certs ≡ x ∷ rest)) × (validate_cert now (lib.period x) ≡ true)
  unexpired-finished now [] x h = absurd (cc)
  unexpired-finished now (y ∷ rest) x h = elim (Bool-cases (validate_cert now (lib.period y))) [
    | inl e ↦
        let same : y ≡ x = finished-injective (rw e at h) in
        ((rest, ap (λ z. z ∷ rest) same), rw (← same) e)
    | inr e ↦ absurd (cc (sym (rw e at h)))
  ]

  -- the texts of the JSON text are a signature over the hash of the text, by an RSA or an ECDSA key
  abbrev pub Signed : Text → Text → PublicKey Rsa Ec → Type 0
  Signed text signed (rsa_key k) =
      (sig : Text) × (read_json_as_map_string objects signed (codes "RSASignature") ≡ finished sig)
      × (lib.rsa_verify k (lib.sha384 text) (lib.b64_decode sig) ≡ true)
  Signed text signed (ecdsa_key k) =
      (r : Text) × (s : Text) × (read_json_as_map_string objects signed (codes "ECSignature.R")
        ≡ finished r)
      × (read_json_as_map_string objects signed (codes "ECSignature.S") ≡ finished s)
      × (lib.ecdsa_verify k (lib.sha384 text) (lib.number r, lib.number s) ≡ true)
  Signed text signed other = ⊥

  verify_by_sound :
      (text signed : Text) (k : PublicKey Rsa Ec)
      → verify_by lib objects text signed k ≡ finished true
      → Signed text signed k
  unfolding verify_rsa_message_impl verify_ec_message_impl rsa_verify_sig
  verify_by_sound text signed nil_key h = absurd (cc)
  verify_by_sound text signed (rsa_key k) h =
      let (sig, e, v) = then_run-finished _ _ true h in (sig, e, finished-injective v)
  verify_by_sound text signed dsa_key h = absurd (cc)
  verify_by_sound text signed (ecdsa_key k) h =
      let (r, e, after_r) = then_run-finished _ _ true h in
      let (s, f, v) = then_run-finished _ _ true after_r in (r, s, e, f, finished-injective v)
  verify_by_sound text signed unknown_key h = absurd (cc)

  -- If VerifyMessage accepts a message, the JSON text has a certificate, the first that parses from the
  -- bytes of its base64 text or of the PEM block in them, which is within its period, and the signature
  -- beside it is one over the hash of the message by that certificate's key, an RSA or an ECDSA key.
  pub verify_message_sound :
      (now : ℕ) (text signed : Text)
      → verify_message lib objects now text signed ≡ finished true
      → (ecert : Text) × (x : Cert) × (read_json_as_map_string objects signed (codes "Certificate")
          ≡ finished ecert)
        × ((rest : List Cert) × (lib.parse_certificates (der_of lib objects (lib.b64_decode ecert))
              ≡ some (x ∷ rest)))
        × (((lib.period x).not_before < now) × (now < (lib.period x).not_after))
        × Signed text signed (lib.public_key x)
  unfolding verify_message
  verify_message_sound now text signed h =
      let (ecert, e, after_cert) = then_run-finished _ _ true h in
      let (certs, f, after_parse) = then_run-finished _ _ true after_cert in
      let (x, g, by_key) = then_run-finished _ _ true after_parse in
      let ((rest, first), valid) = unexpired-finished now certs x g in
      (
        ecert,
        x,
        e,
        (rest, or_exit-finished _ certs f ∙ ap some first),
        (validate_cert_lem now (lib.period x)).0 valid,
        verify_by_sound text signed (lib.public_key x) by_key,
      )

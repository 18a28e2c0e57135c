-- ===== src/Util/Signing/RoundTrip.antt =====
-- What RSASignJSON and SignECMessage sign, VerifyMessage accepts (util/cryptoutil.go).
use mathlib.Core.List.{Permᴰ}
use copfvtci.Prelude.{ℕ, ◌≡◌, ◌<◌, refl, ap, ◌∙◌, text_eq, true, some, List, [], ◌∷◌, Text, codes}
use copfvtci.Errors.{ok, finished}
use copfvtci.Accessor.{StrMap}
use copfvtci.Util.Validity.{validate_cert_lem}
use copfvtci.Util.Json.{Objects, read_json_as_map_string}
use copfvtci.Util.Json.Laws.{Ascii, ObjectsLaws, read_json_as_map_string-write_json_to_string}
use copfvtci.Util.Signing.{
  Signing, PublicKey, rsa_key, ecdsa_key, rsa_sign, rsa_verify_sig, verify_rsa_message_impl,
  verify_ec_message_impl, verify_ec_message, der_of, verify_message, new_self_signed_cert,
  ecdsa_sign_direct, sign_ec_message, rsa_sign_json,
}

module _ {Cert Rsa Ec RsaPriv EcPriv F Map : Type 0} (lib : Signing Cert Rsa Ec RsaPriv EcPriv)
    (objects : Objects F Map) where
  -- base64 and decimal texts are ASCII and give back what they are made of
  pub record TextLaws : Type 0 where
    pub b64_decode-b64_encode : (s : Text) → lib.b64_decode (lib.b64_encode s) ≡ s
    pub b64_encode-Ascii : (s : Text) → Ascii (lib.b64_encode s)
    pub number-decimal : (n : ℕ) → lib.number (lib.decimal n) ≡ n
    pub decimal-Ascii : (n : ℕ) → Ascii (lib.decimal n)

  -- the certificate in the base64 text, within its period, is for the public key
  abbrev pub CertFor : ℕ → Text → PublicKey Rsa Ec → Type 0
  CertFor now cert k =
      (x : Cert) × ((rest : List Cert) × (lib.parse_certificates
            (der_of lib objects (lib.b64_decode cert))
          ≡ some (x ∷ rest)))
      × (lib.public_key x ≡ k)
      × (((lib.period x).not_before < now) × (now < (lib.period x).not_after))

  module _ (texts : TextLaws) (laws : ObjectsLaws objects) where
    verify_message_rsa :
        (now : ℕ) (text signed cert sig : Text) (k : Rsa)
        → read_json_as_map_string objects signed (codes "Certificate") ≡ finished cert
        → read_json_as_map_string objects signed (codes "RSASignature")
          ≡ finished (lib.b64_encode sig)
        → CertFor now cert (rsa_key k)
        → lib.rsa_verify k (lib.sha384 text) sig ≡ true
        → verify_message lib objects now text signed ≡ finished true
    unfolding verify_message verify_rsa_message_impl rsa_verify_sig
    verify_message_rsa now text signed cert sig k e f (x, (rest, g), h, valid) v =
        rw
          (
            e,
            g,
            (validate_cert_lem now (lib.period x)).1 valid,
            h,
            f,
            rsa_verify_sig,
            texts.b64_decode-b64_encode sig,
            v,
          )
          refl

    -- VerifyMessage accepts what RSASignJSON makes of a text, in whichever order Go takes the values to
    -- write, if the certificate is for the public key of the private one and within its period. The text
    -- that it writes the signature into is a JSON object.
    pub verify_message-rsa_sign_json :
        (now : ℕ) (range : StrMap → StrMap) (text signed : Text) (m : Map) (key : RsaPriv)
        (cert : Text) (k : Rsa)
        → ((xs : StrMap) → Permᴰ xs (range xs))
        → objects.new_map_from_json signed ≡ some m
        → Ascii cert
        → CertFor now cert (rsa_key k)
        → ((h : Text)
            → (sig : Text) × (lib.rsa_sign key h ≡ some sig) × (lib.rsa_verify k h sig ≡ true))
        → (out : Text) × (rsa_sign_json lib objects range text signed key cert ≡ finished out)
          × (verify_message lib objects now text out ≡ finished true)
    unfolding rsa_sign_json rsa_sign text_eq
    verify_message-rsa_sign_json now range text signed m key cert k order e ascii valid pair =
        let (sig, made, verifies) = pair (lib.sha384 text) in
        let values : StrMap =
          (codes "RSASignature", lib.b64_encode sig) ∷ (codes "Certificate", cert) ∷ [] in
        let (out, written, (of_rsa, (of_cert, _))) =
          read_json_as_map_string-write_json_to_string objects laws signed m values (range values) e
            (((refl, refl, refl, refl), tt), (tt, tt)) (texts.b64_encode-Ascii sig, (ascii, tt))
            (order values) in
        (
          out,
          rw made written,
          verify_message_rsa now text out cert sig k of_cert of_rsa valid verifies,
        )

    verify_message_ec :
        (now : ℕ) (text signed cert : Text) (r s : ℕ) (k : Ec)
        → read_json_as_map_string objects signed (codes "ECSignature.R") ≡ finished (lib.decimal r)
        → read_json_as_map_string objects signed (codes "ECSignature.S") ≡ finished (lib.decimal s)
        → read_json_as_map_string objects signed (codes "Certificate") ≡ finished cert
        → CertFor now cert (ecdsa_key k)
        → lib.ecdsa_verify k (lib.sha384 text) (r, s) ≡ true
        → verify_message lib objects now text signed ≡ finished true
    unfolding verify_message verify_ec_message_impl
    verify_message_ec now text signed cert r s k of_r of_s e (x, (rest, g), h, valid) v =
        rw
          (
            e,
            g,
            (validate_cert_lem now (lib.period x)).1 valid,
            h,
            of_r,
            of_s,
            texts.number-decimal r,
            texts.number-decimal s,
            v,
          )
          refl

    verify_ec_message_lem :
        (text signed cert : Text) (r s : ℕ) (k : Ec) (x : Cert)
        → read_json_as_map_string objects signed (codes "ECSignature.R") ≡ finished (lib.decimal r)
        → read_json_as_map_string objects signed (codes "ECSignature.S") ≡ finished (lib.decimal s)
        → read_json_as_map_string objects signed (codes "Certificate") ≡ finished cert
        → lib.parse_certificate (lib.b64_decode cert) ≡ some x
        → lib.public_key x ≡ ecdsa_key k
        → lib.ecdsa_verify k (lib.sha384 text) (r, s) ≡ true
        → verify_ec_message lib objects text signed ≡ finished true
    unfolding verify_ec_message verify_ec_message_impl
    verify_ec_message_lem text signed cert r s k x of_r of_s e g h v =
        rw (e, g, h, of_r, of_s, texts.number-decimal r, texts.number-decimal s, v) refl

    -- VerifyMessage and VerifyECMessage accept what SignECMessage makes of a text, in whichever order Go
    -- takes the values to write, at any time within the period of the certificate that it made for
    -- itself. That certificate parses, alone and as a list, and is for the public key of the generated
    -- one; and the text that it writes the signature into is a JSON object.
    pub verify_message-sign_ec_message :
        (now later : ℕ) (range : StrMap → StrMap) (text signed : Text) (m : Map) (key : EcPriv)
        (cert : Text) (k : Ec) (x : Cert)
        → ((xs : StrMap) → Permᴰ xs (range xs))
        → objects.new_map_from_json signed ≡ some m
        → new_self_signed_cert lib objects now ≡ ok (cert, key)
        → CertFor later (lib.b64_encode cert) (ecdsa_key k)
        → lib.parse_certificate cert ≡ some x
        → lib.public_key x ≡ ecdsa_key k
        → ((h : Text)
            → (rs : ℕ × ℕ) × (lib.ecdsa_sign key h ≡ some rs) × (lib.ecdsa_verify k h rs ≡ true))
        → (out : Text) × (sign_ec_message lib objects now range text signed ≡ finished out)
          × (verify_message lib objects later text out ≡ finished true)
          × (verify_ec_message lib objects text out ≡ finished true)
    unfolding sign_ec_message ecdsa_sign_direct text_eq
    verify_message-sign_ec_message now later range text signed m key cert k x order e made valid
          parses public pair =
        let ((r, s), signs, verifies) = pair (lib.sha384 text) in
        let values : StrMap =
          (codes "ECSignature.R", lib.decimal r)
          ∷ (codes "ECSignature.S", lib.decimal s)
          ∷ (codes "Certificate", lib.b64_encode cert)
          ∷ [] in
        let (out, written, (of_r, (of_s, (of_cert, _)))) =
          read_json_as_map_string-write_json_to_string objects laws signed m values (range values) e
            (
              ((refl, refl, refl, refl), ((refl, refl, refl, refl), tt)),
              (((refl, refl, refl, refl), tt), (tt, tt)),
            )
            (texts.decimal-Ascii r, (texts.decimal-Ascii s, (texts.b64_encode-Ascii cert, tt)))
            (order values) in
        (
          out,
          rw (made, signs) written,
          verify_message_ec later text out (lib.b64_encode cert) r s k of_r of_s of_cert valid
              verifies,
          verify_ec_message_lem text out (lib.b64_encode cert) r s k x of_r of_s of_cert
              (ap lib.parse_certificate (texts.b64_decode-b64_encode cert) ∙ parses) public
              verifies,
        )

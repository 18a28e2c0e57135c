-- ===== src/Token/Soundness.antt =====
-- CreateToken against VerifyToken (util/util.go), and what a token that verifies shows.
use copfvtci.Prelude.{
  ℕ, ◌≡◌, refl, sym, ap, ◌∙◌, Option, none, some, List, [], ◌∷◌, ◌++◌, Text, is_empty, true, false,
  arith, Bool-cases, inl, inr,
}
use copfvtci.Strings.SplitJoin.{split, split-append, split-Lacks, Lacks, join-split, join}
use copfvtci.Errors.{Result, ok, err, ok-injective}
use copfvtci.Token.{
  PublicKey, rsa, ecdsa, other, Crypto, get_rsa_private_key, get_ec_private_key, digest, token_with,
  gen_rsa_token, gen_ecdsa_token, token_by, create_token, decode_parts, decode_token, verify_by,
  verify_token, checked, after,
}

pub checked-eq-ok :
    {A B : Type 0} (o : Option A) (f : A → Result B) (b : B)
    → checked o f ≡ ok b
    → (a : A) × (o ≡ some a) × (f a ≡ ok b)
checked-eq-ok none f b h = absurd (cc)
checked-eq-ok (some a) f b h = (a, refl, h)

pub after-eq-ok :
    {A B : Type 0} (r : Result A) (f : A → Result B) (b : B)
    → after r f ≡ ok b
    → (a : A) × (r ≡ ok a) × (f a ≡ ok b)
after-eq-ok (err e) f b h = absurd (cc)
after-eq-ok (ok a) f b h = (a, refl, h)

is_empty-append : (p s : Text) (c : ℕ) → is_empty (p ++ c ∷ s) ≡ false
is_empty-append [] s c = refl
is_empty-append (d ∷ p) s c = refl

module _ {Cert Pub Priv : Type 0} (c : Crypto Cert Pub Priv) where
  -- base64 without padding: decoding undoes encoding, and its letters have no period among them;
  -- encoding/asn1 reads back what it writes
  pub record CryptoLaws : Type 0 where
    pub b64_decode-b64_encode : (s : Text) → c.b64_decode (c.b64_encode s) ≡ some s
    pub b64_encode-Lacks : (s : Text) → Lacks b'.' (c.b64_encode s)
    pub unmarshal-marshal :
        (rs : ℕ × ℕ) (s : Text) → c.marshal rs ≡ some s → c.unmarshal s ≡ some rs

  -- the private key in `key` signs any digest, and the public key verifies what it signs
  abbrev pub Pair : Text → PublicKey Pub → Type 0
  Pair key (rsa k) =
      (priv : Priv) × (get_rsa_private_key c key ≡ ok priv)
      × ((h : Text) → (sig : Text) × (c.rsa_sign priv h ≡ some sig) × (c.rsa_verify k h sig ≡ true))
  Pair key (ecdsa k) =
      (priv : Priv) × (get_ec_private_key c key ≡ ok priv)
      × ((h : Text)
          → (rs : ℕ × ℕ) × (sig : Text) × (c.ecdsa_sign priv h ≡ some rs)
            × (c.marshal rs ≡ some sig)
            × (c.ecdsa_verify k h rs ≡ true))
  Pair key other = ⊥

  -- what the type switch verifies of a signature; nothing for a key of another type
  abbrev pub Verifies : PublicKey Pub → Text → Text → Type 0
  Verifies (rsa k) h sig = c.rsa_verify k h sig ≡ true
  Verifies (ecdsa k) h sig =
      (rs : ℕ × ℕ) × (c.unmarshal sig ≡ some rs) × (c.ecdsa_verify k h rs ≡ true)
  Verifies other h sig = Unit

  decode_token-token_with :
      CryptoLaws
      → (cert block sig : Text) (x : Cert) → c.pem_decode cert ≡ some block
      → c.parse_certificate block ≡ some x
      → decode_token c (token_with c cert sig) ≡ ok (x, c.b64_encode cert, c.b64_encode sig)
  unfolding decode_token decode_parts
  decode_token-token_with laws cert block sig x pem parse =
      let parts =
        split-append (c.b64_encode cert) (c.b64_encode sig) b'.' (laws.b64_encode-Lacks cert)
        ∙ ap (λ t. c.b64_encode cert ∷ t)
            (split-Lacks (c.b64_encode sig) b'.' (laws.b64_encode-Lacks sig)) in
      rw (
        is_empty-append (c.b64_encode cert) (c.b64_encode sig) b'.',
        parts,
        laws.b64_decode-b64_encode cert,
        pem,
        parse,
      )

  decode_parts_sound :
      (ps : List Text) (x : Cert) (b64cert b64sig : Text)
      → decode_parts c ps ≡ ok (x, b64cert, b64sig)
      → (raw block : Text) × (ps ≡ b64cert ∷ b64sig ∷ [])
        × (c.b64_decode b64cert ≡ some raw)
        × (c.pem_decode raw ≡ some block)
        × (c.parse_certificate block ≡ some x)
  unfolding decode_parts
  decode_parts_sound [] x b64cert b64sig h = absurd (cc)
  decode_parts_sound (p ∷ []) x b64cert b64sig h = absurd (cc)
  decode_parts_sound (p ∷ q ∷ r ∷ ps) x b64cert b64sig h = absurd (cc)
  decode_parts_sound (p ∷ q ∷ []) x b64cert b64sig h =
      let (raw, decoded, h1) = checked-eq-ok (c.b64_decode p) _ (x, b64cert, b64sig) h in
      let (block, pem, h2) = checked-eq-ok (c.pem_decode raw) _ (x, b64cert, b64sig) h1 in
      let (x', parse, h3) = checked-eq-ok (c.parse_certificate block) _ (x, b64cert, b64sig) h2 in
      let same = ok-injective h3 in
      let one = ap (λ (t : Cert × Text × Text). t.0) same in
      let two = ap (λ (t : Cert × Text × Text). t.1) same in
      let three = ap (λ (t : Cert × Text × Text). t.2) same in (raw, block, cc, cc, pem, cc)

  decode_token_sound :
      (token : Text) (x : Cert) (b64cert b64sig : Text)
      → decode_token c token ≡ ok (x, b64cert, b64sig)
      → (raw block : Text) × (token ≡ b64cert ++ b'.' ∷ b64sig)
        × (c.b64_decode b64cert ≡ some raw)
        × (c.pem_decode raw ≡ some block)
        × (c.parse_certificate block ≡ some x)
  unfolding decode_token
  decode_token_sound token x b64cert b64sig h = elim (Bool-cases (is_empty token)) [
    | inl e ↦ absurd (ground arith)
    | inr e ↦
        let (raw, block, parts, decoded, pem, parse) =
          decode_parts_sound (split token b'.') x b64cert b64sig (rw e at h) in
        (
          raw,
          block,
          sym (join-split token b'.') ∙ ap (λ t. join t b'.') parts ∙ unfold join in refl,
          decoded,
          pem,
          parse,
        )
  ]

  pub verify_by_sound :
      (x y : Cert) (k : PublicKey Pub) (h sig : Text)
      → verify_by c x k h sig ≡ ok y
      → (x ≡ y) × Verifies k h sig
  unfolding verify_by
  verify_by_sound x y (rsa k) h sig e = elim (Bool-cases (c.rsa_verify k h sig)) [
    | inl v ↦ (ok-injective (rw v at e), v)
    | inr v ↦ absurd (ground arith)
  ]
  verify_by_sound x y (ecdsa k) h sig e =
      let (rs, read, e') = checked-eq-ok (c.unmarshal sig) _ y e in
      elim (Bool-cases (c.ecdsa_verify k h rs)) [
        | inl v ↦ (ok-injective (rw v at e'), (rs, read, v))
        | inr v ↦ absurd (ground arith)
      ]
  verify_by_sound x y other h sig e = (ok-injective e, tt)

  -- A token that VerifyToken accepts is two parts with a period between them: a base64 text of the PEM
  -- form of the certificate that is returned, and a base64 text of a signature that verifies, by that
  -- certificate's key if it is an RSA or an ECDSA key, over the body and the first part.
  pub verify_token_sound :
      (token body : Text) (x : Cert)
      → verify_token c token body ≡ ok x
      → (b64cert b64sig raw block sig : Text) × (token ≡ b64cert ++ b'.' ∷ b64sig)
        × (c.b64_decode b64cert ≡ some raw)
        × (c.pem_decode raw ≡ some block)
        × (c.parse_certificate block ≡ some x)
        × (c.b64_decode b64sig ≡ some sig)
        × Verifies (c.public_key x) (digest c body b64cert) sig
  unfolding verify_token
  verify_token_sound token body x h =
      let ((x', b64cert, b64sig), decoded, h1) = after-eq-ok (decode_token c token) _ x h in
      let (sig, read, h2) = checked-eq-ok (c.b64_decode b64sig) _ x h1 in
      let (same, verified) =
        verify_by_sound x' x (c.public_key x') (digest c body b64cert) sig h2 in
      let (raw, block, parts, b64, pem, parse) =
        decode_token_sound token x' b64cert b64sig decoded in
      (
        b64cert,
        b64sig,
        raw,
        block,
        sig,
        parts,
        b64,
        pem,
        parse ∙ ap some same,
        read,
        rw (← same) verified,
      )

  -- the two tokens, by the type of the key
  verify_token-token_by :
      CryptoLaws
      → (cert block key body : Text) (x : Cert) (k : PublicKey Pub) → c.pem_decode cert ≡ some block
      → c.parse_certificate block ≡ some x
      → c.public_key x ≡ k
      → Pair key k
      → (token : Text) × (token_by c k cert key body ≡ ok token)
        × (verify_token c token body ≡ ok x)
  unfolding token_by gen_rsa_token gen_ecdsa_token verify_token verify_by
  verify_token-token_by laws cert block key body x other pem parse same pair = absurd pair
  verify_token-token_by laws cert block key body x (rsa k) pem parse same (priv, got, signs) =
      let (sig, made, good) = signs (digest c body (c.b64_encode cert)) in
      (
        token_with c cert sig,
        rw (got, made),
        rw (
          decode_token-token_with laws cert block sig x pem parse,
          laws.b64_decode-b64_encode sig,
          same,
          good,
        ),
      )
  verify_token-token_by laws cert block key body x (ecdsa k) pem parse same (priv, got, signs) =
      let (rs, sig, made, written, good) = signs (digest c body (c.b64_encode cert)) in
      (
        token_with c cert sig,
        rw (got, made, written),
        rw (
          decode_token-token_with laws cert block sig x pem parse,
          laws.b64_decode-b64_encode sig,
          same,
          laws.unmarshal-marshal rs sig written,
          good,
        ),
      )

  -- For a certificate in PEM form and the private key that belongs to it, RSA or ECDSA, CreateToken makes
  -- a token over any body, and VerifyToken accepts it with the same body and returns the certificate.
  pub verify_token-create_token :
      CryptoLaws
      → (cert block key body : Text) (x : Cert) → c.pem_decode cert ≡ some block
      → c.parse_certificate block ≡ some x
      → Pair key (c.public_key x)
      → (token : Text) × (create_token c cert key body ≡ ok token)
        × (verify_token c token body ≡ ok x)
  unfolding create_token
  verify_token-create_token laws cert block key body x pem parse pair =
      let (token, made, good) =
        verify_token-token_by laws cert block key body x (c.public_key x) pem parse refl pair in
      (token, rw (pem, parse) made, good)

  -- A certificate whose key is neither RSA nor ECDSA makes a token for any body from any base64 text: no
  -- signature is looked at.
  pub verify_token_other :
      CryptoLaws
      → (cert block body sig : Text) (x : Cert) → c.pem_decode cert ≡ some block
      → c.parse_certificate block ≡ some x
      → c.public_key x ≡ other
      → verify_token c (token_with c cert sig) body ≡ ok x
  unfolding verify_token verify_by
  verify_token_other laws cert block body sig x pem parse key =
      rw (
        decode_token-token_with laws cert block sig x pem parse,
        laws.b64_decode-b64_encode sig,
        key,
      )

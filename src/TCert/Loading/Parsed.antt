-- ===== src/TCert/Loading/Parsed.antt =====
-- Which certificates and keys lib/tcert/util.go accepts.
use mathlib.Core.Path.{subst}
use copfvtci.Prelude.{
  ℕ, ◌≡◌, ◌≢◌, ◌↔◌, ◌<◌, ◌⊎◌, refl, sym, ap, ◌∙◌, inl, inr, true, Option, none, some, List, [], ◌∷◌,
  Text, Bool-cases, Option-cases,
}
use copfvtci.Errors.{
  Result, ok, ok-injective, library_error, Run, finished, errored, crashed, exited, run_of,
  finished-injective, then_run-finished, run_of-finished,
}
use copfvtci.Util.Validity.{validate_cert, validate_cert_lem}
use copfvtci.KeyTree.Cache.{IsValid, new_key_tree-IsValid}
use copfvtci.TCert.Batch.{new_mgr}
use copfvtci.TCert.Loading.{
  read_or_error, parsed, and_supported, ec_or_error, pkcs8_or_ec, pkcs1_or, PrivateKey, rsa_key,
  ecdsa_key, other_key, Parsers, get_certificate, parse_private_key, der_of, get_private_key,
  load_cert, load_key, load_mgr, TCertHandlerState, init_tcert_handler,
}

read_some : (o : Option Text) (buf : Text) → read_or_error o ≡ finished buf → o ≡ some buf
read_some (some b) buf h = ap some (finished-injective h)
read_some none buf h = absurd (cc)

module _ {Cert Rsa Ec : Type 0} (lib : Parsers Cert Rsa Ec) (now : ℕ) where
  -- the certificate is the first of the parsed ones, has begun and has not ended
  abbrev pub Current : Text → Cert → Type 0
  Current buf x =
      ((rest : List Cert) × (lib.parse_certificates (der_of lib now buf) ≡ some (x ∷ rest)))
      × ((lib.period x).not_before < now)
      × (now < (lib.period x).not_after)

  parsed_sound :
      (refused : Run Cert) (o : Option (List Cert)) (x : Cert)
      → refused ≢ finished x
      → parsed lib now refused o ≡ finished x
      → ((rest : List Cert) × (o ≡ some (x ∷ rest))) × (validate_cert now (lib.period x) ≡ true)
  parsed_sound refused none x apart h = absurd (apart h)
  parsed_sound refused (some []) x apart h = absurd (cc)
  parsed_sound refused (some (y ∷ rest)) x apart h =
      elim (Bool-cases (validate_cert now (lib.period y))) [
        | inl e ↦
            let same : y ≡ x = finished-injective (rw e at h) in
            ((rest, ap (λ z. some (z ∷ rest)) same), rw (← same) e)
        | inr e ↦ absurd (cc (sym (rw e at h)))
      ]

  parsed_crashed :
      (refused : Run Cert) (o : Option (List Cert))
      → refused ≢ crashed
      → parsed lib now refused o ≡ crashed
      → o ≡ some []
  parsed_crashed refused none apart h = absurd (apart h)
  parsed_crashed refused (some []) apart h = refl
  parsed_crashed refused (some (y ∷ rest)) apart h =
      elim (Bool-cases (validate_cert now (lib.period y))) [
        | inl e ↦ absurd (cc (sym (rw e at h)))
        | inr e ↦ absurd (cc (sym (rw e at h)))
      ]

  parsed_exited :
      (refused : Run Cert) (o : Option (List Cert))
      → parsed lib now refused o ≡ exited
      → (o ≡ none) × (refused ≡ exited)
  parsed_exited refused none h = (refl, h)
  parsed_exited refused (some []) h = absurd (cc)
  parsed_exited refused (some (y ∷ rest)) h = elim (Bool-cases (validate_cert now (lib.period y))) [
    | inl e ↦ absurd (cc (sym (rw e at h)))
    | inr e ↦ absurd (cc (sym (rw e at h)))
  ]

  -- which Run the source ends in where the bytes do not parse
  abbrev refusal : Option Text → Run Cert
  refusal none = errored library_error
  refusal (some block) = exited

  refusal_ne_finished : (o : Option Text) (x : Cert) → refusal o ≢ finished x
  refusal_ne_finished none x h = cc
  refusal_ne_finished (some block) x h = cc

  refusal_ne_crashed : (o : Option Text) → refusal o ≢ crashed
  refusal_ne_crashed none h = cc
  refusal_ne_crashed (some block) h = cc

  get_certificate-parsed :
      (buf : Text)
      → get_certificate lib now buf
        ≡ parsed lib now
            (refusal (lib.pem_decode buf))
            (lib.parse_certificates (der_of lib now buf))
  unfolding get_certificate
  get_certificate-parsed buf = elim (Option-cases (lib.pem_decode buf)) [
    | inl e ↦ rw (e, der_of) refl
    | inr (block, e) ↦ rw (e, der_of) refl
  ]

  get_certificate-finished :
      (buf : Text) (x : Cert) → get_certificate lib now buf ≡ finished x → Current buf x
  get_certificate-finished buf x h =
      let (parsed_first, valid) =
        parsed_sound (refusal (lib.pem_decode buf)) (lib.parse_certificates (der_of lib now buf)) x
          (refusal_ne_finished (lib.pem_decode buf) x) (sym (get_certificate-parsed buf) ∙ h) in
      let (begun, ends) = (validate_cert_lem now (lib.period x)).0 valid in
      (parsed_first, begun, ends)

  Current-get_certificate :
      (buf : Text) (x : Cert) → Current buf x → get_certificate lib now buf ≡ finished x
  Current-get_certificate buf x ((rest, e), begun, ends) =
      get_certificate-parsed buf
      ∙ rw (e, (validate_cert_lem now (lib.period x)).1 (begun, ends)) refl

  exited_block :
      (o : Option Text) (buf : Text)
      → lib.pem_decode buf ≡ o
      → refusal o ≡ exited
      → (block : Text) × (lib.pem_decode buf ≡ some block) × (der_of lib now buf ≡ block)
  exited_block none buf e h = absurd (cc)
  exited_block (some block) buf e h = (block, e, rw (e, der_of) refl)

  -- GetCertificate returns a certificate exactly if it is the first that parses from the PEM block, or
  -- from all bytes if there is none, and the present time is within its period. It panics exactly if no
  -- certificate is in those bytes but they parse, and it ends the process exactly if there is a PEM block
  -- that does not parse.
  pub get_certificate_lem :
      (buf : Text)
      → ((x : Cert) → (get_certificate lib now buf ≡ finished x) ↔ Current buf x)
        × ((get_certificate lib now buf ≡ crashed)
            ↔ (lib.parse_certificates (der_of lib now buf) ≡ some []))
        × ((get_certificate lib now buf ≡ exited) ↔ (
            (block : Text) × (lib.pem_decode buf ≡ some block)
            × (lib.parse_certificates block ≡ none)))
  get_certificate_lem buf =
      let at_parsed = get_certificate-parsed buf in
      (
        λ x. (get_certificate-finished buf x, Current-get_certificate buf x),
        (
          λ h.
              parsed_crashed (refusal (lib.pem_decode buf))
                (lib.parse_certificates (der_of lib now buf))
                (refusal_ne_crashed (lib.pem_decode buf)) (sym at_parsed ∙ h),
          λ e. at_parsed ∙ rw e refl,
        ),
        (
          λ h.
              let (e, r) =
                parsed_exited (refusal (lib.pem_decode buf))
                  (lib.parse_certificates (der_of lib now buf)) (sym at_parsed ∙ h) in
              let (block, f, g) = exited_block (lib.pem_decode buf) buf refl r in
              (block, f, ap lib.parse_certificates (sym g) ∙ e),
          λ (block, f, g). at_parsed ∙ rw (f, der_of, g) refl,
        ),
      )

  -- the key comes from one of the three parsers, and its kind is one of the two supported ones
  abbrev pub Accepted : Text → PrivateKey Rsa Ec → Type 0
  Accepted der (rsa_key k) =
      (lib.parse_pkcs1 der ≡ some k)
      ⊎ ((lib.parse_pkcs1 der ≡ none) × (lib.parse_pkcs8 der ≡ some (rsa_key k)))
  Accepted der (ecdsa_key k) =
      (lib.parse_pkcs1 der ≡ none)
      × ((lib.parse_pkcs8 der ≡ some (ecdsa_key k))
          ⊎ ((lib.parse_pkcs8 der ≡ none) × (lib.parse_ec der ≡ some k)))
  Accepted der other_key = ⊥

  ec_or_error-Accepted :
      (der : Text) (o : Option Ec) (k : PrivateKey Rsa Ec)
      → lib.parse_ec der ≡ o
      → lib.parse_pkcs1 der ≡ none
      → lib.parse_pkcs8 der ≡ none
      → and_supported lib now (ec_or_error lib now o) ≡ ok k
      → Accepted der k
  ec_or_error-Accepted der none k e f g h = absurd (cc)
  ec_or_error-Accepted der (some r) k e f g h = rw (← ok-injective h) (f, inr (g, e))

  pkcs8_or_ec-Accepted :
      (der : Text) (o : Option (PrivateKey Rsa Ec)) (k : PrivateKey Rsa Ec)
      → lib.parse_pkcs8 der ≡ o
      → lib.parse_pkcs1 der ≡ none
      → and_supported lib now (pkcs8_or_ec lib now der o) ≡ ok k
      → Accepted der k
  pkcs8_or_ec-Accepted der none k e f h = ec_or_error-Accepted der (lib.parse_ec der) k refl f e h
  pkcs8_or_ec-Accepted der (some (rsa_key r)) k e f h = rw (← ok-injective h) (inr (f, e))
  pkcs8_or_ec-Accepted der (some (ecdsa_key r)) k e f h = rw (← ok-injective h) (f, inl e)
  pkcs8_or_ec-Accepted der (some other_key) k e f h = absurd (cc)

  pkcs1_or-Accepted :
      (der : Text) (o : Option Rsa) (k : PrivateKey Rsa Ec)
      → lib.parse_pkcs1 der ≡ o
      → and_supported lib now (pkcs1_or lib now der o) ≡ ok k
      → Accepted der k
  pkcs1_or-Accepted der none k e h = pkcs8_or_ec-Accepted der (lib.parse_pkcs8 der) k refl e h
  pkcs1_or-Accepted der (some r) k e h = rw (← ok-injective h) (inl e)

  Accepted-pkcs1_or :
      (der : Text) (k : PrivateKey Rsa Ec)
      → Accepted der k
      → and_supported lib now (pkcs1_or lib now der (lib.parse_pkcs1 der)) ≡ ok k
  Accepted-pkcs1_or der (rsa_key k) (inl e) = rw e refl
  Accepted-pkcs1_or der (rsa_key k) (inr (e, f)) = rw (e, f) refl
  Accepted-pkcs1_or der (ecdsa_key k) (e, inl f) = rw (e, f) refl
  Accepted-pkcs1_or der (ecdsa_key k) (e, inr (f, g)) = rw (e, f, g) refl
  Accepted-pkcs1_or der other_key h = absurd h

  -- GetPrivateKey returns a key exactly if the first of the parsers PKCS #1, PKCS #8 and EC that reads
  -- the bytes reads this key and it is an RSA or an ECDSA key. The bytes are those of the PEM block, or
  -- all of them if there is none.
  pub get_private_key_lem :
      (buf : Text) (k : PrivateKey Rsa Ec)
      → (get_private_key lib now buf ≡ ok k) ↔ Accepted (der_of lib now buf) k
  unfolding get_private_key parse_private_key
  get_private_key_lem buf k =
      let der = der_of lib now buf in
      (pkcs1_or-Accepted der (lib.parse_pkcs1 der) k refl, Accepted-pkcs1_or der k)

  load_cert-finished :
      (path : Text) (x : Cert)
      → load_cert lib now path ≡ finished x
      → (buf : Text) × (lib.read_file path ≡ some buf) × Current buf x
  unfolding load_cert
  load_cert-finished path x h =
      let (buf, e, f) =
        then_run-finished (read_or_error (lib.read_file path)) (get_certificate lib now) x h in
      (buf, read_some (lib.read_file path) buf e, get_certificate-finished buf x f)

  load_key-finished :
      (path : Text) (k : PrivateKey Rsa Ec)
      → load_key lib now path ≡ finished k
      → (buf : Text) × (lib.read_file path ≡ some buf) × Accepted (der_of lib now buf) k
  unfolding load_key
  load_key-finished path k h =
      let (buf, e, f) =
        then_run-finished (read_or_error (lib.read_file path))
          (λ b. run_of (get_private_key lib now b)) k h in
      (
        buf,
        read_some (lib.read_file path) buf e,
        (get_private_key_lem buf k).0 (run_of-finished (get_private_key lib now buf) k f),
      )

  -- If initTCertHandler succeeds, the key file holds a key that GetPrivateKey accepts and the CA file a
  -- certificate that is within its period, and the handler has that key, that certificate, the settings
  -- of NewMgr and a well-formed tree over the root key that was generated by the default BCCSP.
  pub init_tcert_handler_lem :
      {K Csp : Type 0} (csp : Result Csp) (gen_key : Csp → Result K) (derive : K → Text → Option K)
      (key_file ca_file : Text) (s : TCertHandlerState lib now K)
      → init_tcert_handler lib now csp gen_key key_file ca_file ≡ finished s
      → ((buf : Text) × (lib.read_file key_file ≡ some buf)
          × Accepted (der_of lib now buf) s.ca_key)
        × ((buf : Text) × (lib.read_file ca_file ≡ some buf) × Current buf s.ca_cert)
        × (s.mgr ≡ new_mgr)
        × ((c : Csp) × (root : K) × (csp ≡ ok c)
            × (gen_key c ≡ ok root)
            × IsValid derive root s.key_tree)
  unfolding init_tcert_handler load_mgr
  init_tcert_handler_lem csp gen_key derive key_file ca_file s h =
      let (c, e, after_csp) = then_run-finished (run_of csp) _ s h in
      let (loaded, f, after_mgr) =
        then_run-finished (load_mgr lib now key_file ca_file) _ s after_csp in
      let (root, g, last) = then_run-finished (run_of (gen_key c)) _ s after_mgr in
      let (key, of_key, with_key) = then_run-finished (load_key lib now key_file) _ loaded f in
      let (cert, of_cert, with_cert) =
        then_run-finished (load_cert lib now ca_file) _ loaded with_key in
      let made = finished-injective last in
      let parts = finished-injective with_cert in
      (
        subst
            (λ k.
              (buf : Text) × (lib.read_file key_file ≡ some buf) × Accepted (der_of lib now buf) k)
            (ap (λ q. q.0) parts ∙ ap (λ t. t.ca_key) made) (load_key-finished key_file key of_key),
        subst (λ x. (buf : Text) × (lib.read_file ca_file ≡ some buf) × Current buf x)
            (ap (λ q. q.1) parts ∙ ap (λ t. t.ca_cert) made)
            (load_cert-finished ca_file cert of_cert),
        sym (ap (λ q. q.2) parts ∙ ap (λ t. t.mgr) made),
        (
          c,
          root,
          run_of-finished csp c e,
          run_of-finished (gen_key c) root g,
          subst (IsValid derive root) (ap (λ t. t.key_tree) made)
              (new_key_tree-IsValid derive root),
        ),
      )

-- ===== src/Client/Tls/Roots.antt =====
-- Which roots the client's transport trusts (lib/tls/tls.go, SendPost of lib/client.go).
use copfvtci.Prelude.{
  ◌++◌, append-nil, append_assoc, ◌≡◌, ◌↔◌, refl, sym, ap, ◌∙◌, Option, none, some, List, [], ◌∷◌,
  Text, All, Option-cases, inl, inr,
}
use copfvtci.Errors.{Result, ok, err, ok-injective}
use copfvtci.Client.Tls.{
  ClientTlsConfig, TlsLib, TlsConfig, appended, ca_pool, configured, get_client_tls_config,
  get_client_config, transport_config, bytes_of, or_nil,
}

some-injective : {A : Type 0} {a b : A} → some a ≡ some b → a ≡ b
some-injective h = cc

module _ {Cert Pair : Type 0} (lib : TlsLib Cert Pair) where
  -- a file that can be read and has a certificate
  abbrev pub HasCert : Text → Type 0
  HasCert file =
      (pem : Text) × (x : Cert) × (xs : List Cert) × (lib.read_file file ≡ some pem)
      × (lib.certs_in pem ≡ x ∷ xs)

  abbrev certs_of : Option Text → List Cert
  certs_of none = []
  certs_of (some pem) = lib.certs_in pem

  -- all certificates of the files, in their order
  unfoldable pub all_certs : List Text → List Cert
  all_certs [] = []
  all_certs (file ∷ files) = certs_of (lib.read_file file) ++ all_certs files

  ca_pool-HasCert :
      (files : List Text) (pool : List Cert)
      → All HasCert files
      → ca_pool lib files pool ≡ ok (pool ++ all_certs files)
  unfolding ca_pool all_certs
  ca_pool-HasCert [] pool h = ap ok (sym (append-nil pool))
  ca_pool-HasCert (file ∷ files) pool ((pem, x, xs, e, f), h) =
      rw (e, f)
        (ca_pool-HasCert files (pool ++ x ∷ xs) h
          ∙ ap ok (append_assoc pool (x ∷ xs) (all_certs files)))

  in_file :
      (file pem : Text) (files : List Text) (found pool roots : List Cert)
      → lib.read_file file ≡ some pem
      → lib.certs_in pem ≡ found
      → ((pool' : List Cert) → ca_pool lib files pool' ≡ ok roots → All HasCert files)
      → appended lib pool found (λ pool'. ca_pool lib files pool') ≡ ok roots
      → HasCert file × All HasCert files
  in_file file pem files [] pool roots e f rest g = absurd (cc)
  in_file file pem files (x ∷ xs) pool roots e f rest g =
      ((pem, x, xs, e, f), rest (pool ++ x ∷ xs) g)

  ca_pool-ok :
      (files : List Text) (pool roots : List Cert)
      → ca_pool lib files pool ≡ ok roots
      → All HasCert files
  unfolding ca_pool
  ca_pool-ok [] pool roots h = tt
  ca_pool-ok (file ∷ files) pool roots h = elim (Option-cases (lib.read_file file)) [
    | inl e ↦ absurd (cc (sym (rw e at h)))
    | inr (pem, e) ↦
        in_file file pem files (lib.certs_in pem) pool roots e refl
          (λ pool' g. ca_pool-ok files pool' roots g) (rw e at h)
  ]

  -- the configuration that trusts the certificates of the listed files and no others
  abbrev pub trusting : ClientTlsConfig → TlsConfig Cert Pair
  trusting cfg = record {
    certificates = lib.load_key_pair cfg.cert_file cfg.key_file ∷ [];
    root_cas = all_certs cfg.ca_cert_files;
  }

  or_nil-some : {A : Type 0} (r : Result A) (a : A) → or_nil lib r ≡ some a → r ≡ ok a
  or_nil-some (ok b) a h = ap ok (some-injective h)
  or_nil-some (err e) a h = absurd (cc)

  configured-ok :
      (pair : Option Pair) (r : Result (List Cert)) (conf : TlsConfig Cert Pair)
      → configured lib pair r ≡ ok conf
      → (roots : List Cert) × (r ≡ ok roots)
        × (record { certificates = pair ∷ []; root_cas = roots } ≡ conf)
  configured-ok pair (ok roots) conf h = (roots, refl, ok-injective h)
  configured-ok pair (err e) conf h = absurd (cc)

  -- The transport of SendPost has a TLS configuration of its own exactly if each CA file that the client's
  -- configuration lists can be read and has a certificate, and then it trusts the certificates of
  -- these files and no others. Else it has none, and so trusts the roots of the system.
  pub transport_config_lem :
      (home : Text) (cfg : ClientTlsConfig) (conf : TlsConfig Cert Pair)
      → lib.unmarshal (bytes_of lib (get_client_config lib home)) ≡ cfg
      → (transport_config lib home ≡ some conf)
        ↔ (All HasCert cfg.ca_cert_files × (conf ≡ trusting cfg))
  unfolding transport_config get_client_tls_config
  transport_config_lem home cfg conf e =
      let pair = lib.load_key_pair cfg.cert_file cfg.key_file in
      let at_cfg : transport_config lib home
          ≡ or_nil lib (configured lib pair (ca_pool lib cfg.ca_cert_files [])) =
        ap
          (λ c. or_nil lib (
            configured lib (lib.load_key_pair c.cert_file c.key_file)
              (ca_pool lib c.ca_cert_files [])))
          e in
      (
        λ h.
            let (roots, f, g) =
              configured-ok pair (ca_pool lib cfg.ca_cert_files []) conf
                (or_nil-some _ conf (sym at_cfg ∙ h)) in
            let all = ca_pool-ok cfg.ca_cert_files [] roots f in
            let same : roots ≡ all_certs cfg.ca_cert_files =
              ok-injective (sym f ∙ ca_pool-HasCert cfg.ca_cert_files [] all) in
            (all, sym g ∙ ap (λ r. record { certificates = pair ∷ []; root_cas = r }) same),
        λ (all, same).
            at_cfg
            ∙ ap (λ r. or_nil lib (configured lib pair r))
                (ca_pool-HasCert cfg.ca_cert_files [] all)
            ∙ ap some (sym same),
      )

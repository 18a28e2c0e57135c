-- ===== src/Startup/Paths.antt =====
-- The files of the configuration that configInit of cli/server/config.go leaves.
use copfvtci.Prelude.{
  ◌≡◌, ◌⊎◌, refl, sym, ap, ◌∙◌, inl, inr, true, false, Option, none, some, List, [], ◌∷◌, Text,
  text_eq, text_eq_iff, codes, is_empty, All, Bool-cases,
}
use mathlib.Core.Path.{subst}
use copfvtci.Startup.Configuring.{
  TlsConfig, Config, CliConfig, System, and_some, first_set, make_file_abs, all_abs, abs_tls_client,
  abs_tls, abs_files, with_driver, abs_source, with_debug, cli_config, config_init,
}

and_some-eq :
    {A B : Type 0} (o : Option A) (f : A → Option B) (b : B)
    → and_some o f ≡ some b
    → (a : A) × (o ≡ some a) × (f a ≡ some b)
and_some-eq none f b h = absurd (cc)
and_some-eq (some a) f b h = (a, refl, h)

some-injective : {A : Type 0} {a b : A} → some a ≡ some b → a ≡ b
some-injective h = cc

module _ (sys : System) where
  -- a path that is not set, or absolute
  abbrev pub Absolute : Text → Type 0
  Absolute path = (path ≡ []) ⊎ (sys.is_abs path ≡ true)

  -- every file of the configuration
  pub record PlacedFiles (ca key : Text) (tls : TlsConfig) : Type 0 where
    pub ca_file : Absolute ca
    pub key_file : Absolute key
    pub tls_cert_file : Absolute tls.tls_cert_file
    pub tls_key_file : Absolute tls.tls_key_file
    pub mutual_tls_ca_file : Absolute tls.mutual_tls_ca_file
    pub ca_cert_files : All Absolute tls.db_client.ca_cert_files
    pub client_cert_file : Absolute tls.db_client.cert_file
    pub client_key_file : Absolute tls.db_client.key_file

  abbrev pub Placed : Config → Type 0
  Placed cfg = PlacedFiles cfg.ca_file cfg.key_file cfg.tls_conf

  -- what filepath.Abs promises
  abbrev pub AbsLaw : Type 0
  AbsLaw = (p q : Text) → sys.abs p ≡ some q → sys.is_abs q ≡ true

  first_set-Absolute : (a b : Text) → Absolute a → Absolute b → Absolute (first_set a b)
  first_set-Absolute a b ha hb = elim (Bool-cases (is_empty a)) [
    | inl e ↦ rw e hb
    | inr e ↦ rw e ha
  ]

  module _ (law : AbsLaw) (dir : Text) where
    make_file_abs-Absolute :
        (file path : Text) → make_file_abs sys file dir ≡ some path → Absolute path
    unfolding make_file_abs
    make_file_abs-Absolute file path h = elim (Bool-cases (is_empty file)) [
      | inl e ↦ inl (sym (some-injective (rw e at h)))
      | inr e ↦ elim (Bool-cases (sys.is_abs file)) [
        | inl f ↦ inr (rw (← some-injective (rw (e, f) at h)) f)
        | inr f ↦ inr (law (sys.join dir file) path (rw (e, f) at h))
      ]
    ]

    all_abs-Absolute :
        (files paths : List Text) → all_abs sys dir files ≡ some paths → All Absolute paths
    unfolding all_abs
    all_abs-Absolute [] paths h = rw (← some-injective h) tt
    all_abs-Absolute (file ∷ files) paths h =
        let (path, e, h1) = and_some-eq (make_file_abs sys file dir) _ paths h in
        let (rest, f, h2) = and_some-eq (all_abs sys dir files) _ paths h1 in
        rw (← some-injective h2) (make_file_abs-Absolute file path e, all_abs-Absolute files rest f)

    abs_files-Placed : (cfg placed : Config) → abs_files sys dir cfg ≡ some placed → Placed placed
    unfolding abs_files abs_tls abs_tls_client
    abs_files-Placed cfg placed h =
        let client = cfg.tls_conf.db_client in
        let (ca, e1, h1) = and_some-eq (make_file_abs sys cfg.ca_file dir) _ placed h in
        let (key, e2, h2) = and_some-eq (make_file_abs sys cfg.key_file dir) _ placed h1 in
        let (tls, e3, h3) = and_some-eq (abs_tls sys dir cfg.tls_conf) _ placed h2 in
        let (t_cert, e4, h4) =
          and_some-eq (make_file_abs sys cfg.tls_conf.tls_cert_file dir) _ tls e3 in
        let (t_key, e5, h5) =
          and_some-eq (make_file_abs sys cfg.tls_conf.tls_key_file dir) _ tls h4 in
        let (t_ca, e6, h6) =
          and_some-eq (make_file_abs sys cfg.tls_conf.mutual_tls_ca_file dir) _ tls h5 in
        let (db, e7, h7) = and_some-eq (abs_tls_client sys dir client) _ tls h6 in
        let (files, e8, h8) = and_some-eq (all_abs sys dir client.ca_cert_files) _ db e7 in
        let (c_cert, e9, h9) = and_some-eq (make_file_abs sys client.cert_file dir) _ db h8 in
        let (c_key, e10, h10) = and_some-eq (make_file_abs sys client.key_file dir) _ db h9 in
        rw (← some-injective h3, ← some-injective h7, ← some-injective h10)
          (record {
            ca_file = make_file_abs-Absolute cfg.ca_file ca e1;
            key_file = make_file_abs-Absolute cfg.key_file key e2;
            tls_cert_file = make_file_abs-Absolute cfg.tls_conf.tls_cert_file t_cert e4;
            tls_key_file = make_file_abs-Absolute cfg.tls_conf.tls_key_file t_key e5;
            mutual_tls_ca_file = make_file_abs-Absolute cfg.tls_conf.mutual_tls_ca_file t_ca e6;
            ca_cert_files = all_abs-Absolute client.ca_cert_files files e8;
            client_cert_file = make_file_abs-Absolute client.cert_file c_cert e9;
            client_key_file = make_file_abs-Absolute client.key_file c_key e10;
          })

    with_driver_lem :
        (cfg : Config)
        → Placed cfg
        → Placed (with_driver sys dir cfg) × (is_empty (with_driver sys dir cfg).db_driver ≡ false)
    unfolding with_driver
    with_driver_lem cfg placed = elim (Bool-cases (is_empty cfg.db_driver)) [
      | inl e ↦ simp e (placed, refl)
      | inr e ↦ simp e (placed, refl)
    ]

    abs_source_lem :
        (cfg ready : Config)
        → abs_source sys dir cfg ≡ some ready
        → Placed cfg
        → Placed ready
          × (ready.db_driver ≡ cfg.db_driver)
          × (ready.db_driver ≡ codes "sqlite3" → Absolute ready.data_source)
    unfolding abs_source
    abs_source_lem cfg ready h placed =
        elim (Bool-cases (text_eq cfg.db_driver (codes "sqlite3"))) [
          | inl e ↦
              let (source, f, g) =
                and_some-eq (make_file_abs sys cfg.data_source dir) _ ready (rw e at h) in
              rw (← some-injective g)
                (placed, refl, λ d. make_file_abs-Absolute cfg.data_source source f)
          | inr e ↦ rw (← some-injective (rw e at h)) (
            placed,
            refl,
            λ d. absurd (cc (sym e, (text_eq_iff cfg.db_driver (codes "sqlite3")).1 d)),
          )
        ]

  with_debug_lem :
      (cfg : Config)
      → ((with_debug sys cfg).db_driver ≡ cfg.db_driver)
        × ((with_debug sys cfg).data_source ≡ cfg.data_source)
        × (Placed cfg → Placed (with_debug sys cfg))
  with_debug_lem cfg = elim (Bool-cases (is_empty (sys.getenv (codes "COP_DEBUG")))) [
    | inl e ↦ simp e (refl, refl, λ h. h)
    | inr e ↦ simp e (refl, refl, λ h. h)
  ]

  -- If configInit does not panic, every file of the server's configuration is absolute or not set, also
  -- the certificate and the key that it hands to CFSSL; a database driver is chosen; and the data source
  -- of SQLite is absolute or not set. filepath.Abs returns absolute paths.
  pub config_init_lem :
      AbsLaw
      → (cli cli' : CliConfig) (cfg : Config) → config_init sys cli ≡ some (cfg, cli')
      → Placed cfg
        × Absolute cli'.tls_cert_file
        × Absolute cli'.tls_key_file
        × (is_empty cfg.db_driver ≡ false)
        × (cfg.db_driver ≡ codes "sqlite3" → Absolute cfg.data_source)
  unfolding config_init cli_config
  config_init_lem law cli cli' cfg h =
      let (file, e1, h1) = and_some-eq (sys.abs cli.config_file) _ (cfg, cli') h in
      let (body, e2, h2) = and_some-eq (sys.read_file file) _ (cfg, cli') h1 in
      let (parsed, e3, h3) = and_some-eq (sys.parse body) _ (cfg, cli') h2 in
      let dir = sys.dir file in
      let (placed, e4, h4) = and_some-eq (abs_files sys dir parsed) _ (cfg, cli') h3 in
      let (ready, e5, h5) =
        and_some-eq (abs_source sys dir (with_driver sys dir placed)) _ (cfg, cli') h4 in
      let same = some-injective h5 in
      let at_files = abs_files-Placed law dir parsed placed e4 in
      let (at_driver, chosen) = with_driver_lem law dir placed at_files in
      let (at_ready, driver, source) =
        abs_source_lem law dir (with_driver sys dir placed) ready e5 at_driver in
      let (same_driver, same_source, keep) = with_debug_lem ready in
      let to_cfg : with_debug sys ready ≡ cfg = ap (λ (p : Config × CliConfig). p.0) same in
      let to_cli : cli_config sys cli placed ≡ cli' = ap (λ (p : Config × CliConfig). p.1) same in
      (
        subst Placed to_cfg (keep at_ready),
        subst (λ (t : CliConfig). Absolute t.tls_cert_file) to_cli
            (first_set-Absolute placed.tls_conf.tls_cert_file placed.ca_file at_files.tls_cert_file
              at_files.ca_file),
        subst (λ (t : CliConfig). Absolute t.tls_key_file) to_cli
            (first_set-Absolute placed.tls_conf.tls_key_file placed.key_file at_files.tls_key_file
              at_files.key_file),
        subst (λ (t : Config). is_empty t.db_driver ≡ false) to_cfg
            (ap is_empty (same_driver ∙ driver) ∙ chosen),
        subst (λ (t : Config). t.db_driver ≡ codes "sqlite3" → Absolute t.data_source) to_cfg
            (λ d. subst Absolute (sym same_source) (source (sym same_driver ∙ d))),
      )

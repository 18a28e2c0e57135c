-- ===== src/Server/Started.antt =====
-- What startMain of cli/server/server.go leaves when the server listens.
use mathlib.Core.Path.{subst}
use mathlib.Core.List.{Permᴰ}
use copfvtci.Prelude.{
  ◌≡◌, ◌↔◌, refl, sym, ap, ◌∙◌, inl, inr, Bool, true, false, ◌&&◌, Option, none, some, List, [],
  ◌∷◌, Text, is_empty, Bool-cases,
}
use copfvtci.Errors.{
  Result, ok, err, Run, finished, errored, crashed, exited, run_of, Outcome, returned, failed,
  panicked, then_run-finished, finished-injective,
}
use copfvtci.Accessor.{Accessor, Json}
use copfvtci.Auth.{AuthHandler}
use copfvtci.Ldap.{LdapConfig, LdapClient, UrlLib, new_client}
use copfvtci.Startup.{Engine, RegistryKind, ServerConfig, of_ldap, init_user_registry}
use copfvtci.Startup.Configuring.{Config, CliConfig, System, config_init, server_config}
use copfvtci.Server.{Handler, endpoints, register_handlers, reached, route}
use copfvtci.Server.Endpoints.{Returns}
use copfvtci.Server.Routing.{CleanLaw, route_sound}
use copfvtci.Server.Table.{AtEndpoint}
use copfvtci.Server.Serving.{
  Dirs, create_home, go_on, answer, in_dirs, SignerLib, signer_from_config_and_db, with_db,
  Listening, plain, Globals, ServerLib, signer_or_nil, is_set, setup_with, listen, server_main,
  db_set, or_panic, run_outcome, start_main,
}

pub go_on-finished :
    {S A B : Type 0} (r : Run A × S) (rest : A → S → Run B × S) (b : B)
    → (go_on r rest).0 ≡ finished b
    → (a : A) × (r.0 ≡ finished a) × ((rest a r.1).0 ≡ finished b)
go_on-finished (finished a, s) rest b h = (a, refl, h)
go_on-finished (errored e, s) rest b h = absurd (cc)
go_on-finished (crashed, s) rest b h = absurd (cc)
go_on-finished (exited, s) rest b h = absurd (cc)

or_panic-finished : {A : Type 0} (o : Option A) (a : A) → or_panic o ≡ finished a → o ≡ some a
or_panic-finished none a h = absurd (cc)
or_panic-finished (some b) a h = ap some (finished-injective h)

run_outcome-finished :
    {A : Type 0} (o : Outcome A) (a : A) → run_outcome o ≡ finished a → o ≡ returned a
run_outcome-finished (returned b) a h = ap returned (finished-injective h)
run_outcome-finished (failed e) a h = absurd (cc)
run_outcome-finished panicked a h = absurd (cc)

returned-injective : {A : Type 0} {a b : A} → returned a ≡ returned b → a ≡ b
returned-injective h = cc

some-injective : {A : Type 0} {a b : A} → some a ≡ some b → a ≡ b
some-injective h = cc

listen-plain :
    {Policy Signer : Type 0} (lib : ServerLib Policy Signer) (disabled : Bool) (conf : CliConfig)
    (l : Listening)
    → listen lib disabled conf ≡ finished l
    → (l ≡ plain lib.addr) ↔ (disabled ≡ true)
unfolding listen
listen-plain lib true conf l h = (λ e. refl, λ e. sym (finished-injective h))
listen-plain lib false conf l h = (
  λ e. elim (Bool-cases (is_empty conf.mutual_tls_ca_file)) [
    | inl none_there ↦ absurd (cc (finished-injective (rw none_there at h) ∙ e))
    | inr there ↦
        let (u, _, f) =
          then_run-finished (run_of (lib.load_pool conf.mutual_tls_ca_file)) _ l (rw there at h) in
        absurd (cc (finished-injective f ∙ e))
  ],
  λ e. absurd (cc),
)

with_db-state :
    {Policy Signer : Type 0} (lib : SignerLib Policy Signer) (db : Bool) (r : Result Signer)
    → (with_db lib db r false).1 ≡ db && is_set (signer_or_nil (with_db lib db r false).0)
with_db-state lib true (ok s) = refl
with_db-state lib false (ok s) = refl
with_db-state lib true (err e) = refl
with_db-state lib false (err e) = refl

module _ {Policy Signer : Type 0} (lib : ServerLib Policy Signer) where
  server_main-finished :
      (args : List Text) (db disabled : Bool) (conf : CliConfig) (l : Listening)
      (g : Globals Signer)
      → server_main lib args db disabled conf ≡ finished (l, g)
      → (register_handlers (lib.range (endpoints (setup_with lib (is_set g.enroll_signer)))) []
          ≡ finished g.mux)
        × (listen lib disabled conf ≡ finished l)
        × (g.cert_db_accessor ≡ db && is_set g.enroll_signer)
  unfolding server_main signer_from_config_and_db
  server_main-finished (arg ∷ args) db disabled conf l g h = absurd (cc)
  server_main-finished [] db disabled conf l g h =
      let (u, _, h1) = then_run-finished (run_of lib.load_platforms) _ (l, g) h in
      let (mux, made, h2) = then_run-finished (register_handlers _ []) _ (l, g) h1 in
      let (l', listens, h3) = then_run-finished (listen lib disabled conf) _ (l, g) h2 in
      let same = finished-injective h3 in
      let same_g = ap (λ x. x.1) same in
      (
        subst
            (λ x.
              register_handlers (lib.range (endpoints (setup_with lib (is_set x.enroll_signer)))) []
              ≡ finished x.mux)
            same_g made,
        listens ∙ ap (λ x. finished x.0) same,
        subst (λ x. x.cert_db_accessor ≡ db && is_set x.enroll_signer) same_g
            (with_db-state lib.signers db _),
      )

  module _ (json : Json) (urls : UrlLib) (engine : Engine) (groups : copfvtci.Bootstrap.Config)
      (random : Text) (sys : System) (args : List Text) (conf : CliConfig) (dirs : Dirs)
      (db : Accessor) where
    abbrev pub started : Run (Listening × Globals Signer)
    started = (start_main lib json urls engine groups random sys args conf (dirs, db)).0

    started-finished :
        (l : Listening) (g : Globals Signer)
        → started ≡ finished (l, g)
        → (cfg : Config) × (conf' : CliConfig) × (registry : RegistryKind) × (config_init sys conf
            ≡ some (cfg, conf'))
          × ((init_user_registry json urls engine groups random (server_config sys cfg) db).0
              ≡ returned registry)
          × (server_main lib args (db_set registry) cfg.tls_disable conf' ≡ finished (l, g))
    unfolding start_main
    started-finished l g h =
        let (home, _, h1) =
          go_on-finished (in_dirs (create_home sys.getenv) (dirs, db)) _ (l, g) h in
        let ((cfg, conf'), e, h2) =
          go_on-finished (answer (or_panic (config_init sys conf)) _) _ (l, g) h1 in
        let (registry, f, h3) = then_run-finished (run_outcome _) _ (l, g) h2 in
        (
          cfg,
          conf',
          registry,
          or_panic-finished _ (cfg, conf') e,
          run_outcome-finished _ registry f,
          h3,
        )

    of_client :
        (cfg : ServerConfig) (r : Result LdapClient) (registry : RegistryKind)
        → of_ldap json urls engine groups random cfg r ≡ returned registry
        → db_set registry ≡ false
    of_client cfg (ok c) registry i = ap db_set (sym (returned-injective i))
    of_client cfg (err x) registry i = absurd (cc)

    ldap_db :
        (cfg : Config) (registry : RegistryKind) (ldap : LdapConfig)
        → cfg.ldap ≡ some ldap
        → (init_user_registry json urls engine groups random (server_config sys cfg) db).0
          ≡ returned registry
        → db_set registry ≡ false
    unfolding init_user_registry server_config
    ldap_db cfg registry ldap is_ldap f =
        of_client (server_config sys cfg) (new_client urls (some ldap)) registry (rw is_ldap at f)

    -- If startMain comes to listen, the configuration was read and the user registry set up. It listens
    -- without TLS exactly if the configuration disables TLS. The accessor of the certificates is set exactly if the registry is on the database and the signer was made.
    pub start_main_lem :
        (l : Listening) (g : Globals Signer)
        → started ≡ finished (l, g)
        → (cfg : Config) × (conf' : CliConfig) × (registry : RegistryKind) × (config_init sys conf
            ≡ some (cfg, conf'))
          × ((init_user_registry json urls engine groups random (server_config sys cfg) db).0
              ≡ returned registry)
          × ((l ≡ plain lib.addr) ↔ (cfg.tls_disable ≡ true))
          × (g.cert_db_accessor ≡ db_set registry && is_set g.enroll_signer)
    start_main_lem l g h =
        let (cfg, conf', registry, e, f, served) = started-finished l g h in
        let (_, listens, set) =
          server_main-finished args (db_set registry) cfg.tls_disable conf' l g served in
        (cfg, conf', registry, e, f, listen-plain lib cfg.tls_disable conf' l listens, set)

    -- Once startMain listens, a request reaches a handler only at one of the seventeen paths of
    -- `endpoint_at`, the handler is the one that stands there, and the wrapper before it takes exactly the
    -- credentials that stand there: basic ones at "enroll" and "sign", and a token everywhere else. This is
    -- so whatever the order in which Go took the endpoints. The mux cleans a path of double slashes, and NewTCertHandler does not panic or
    -- end the process.
    pub start_main_guarded :
        (l : Listening) (g : Globals Signer) (clean : Text → Text) (p : Text) (a : AuthHandler)
        (h : Handler)
        → ((xs : List (Text × Run Handler)) → Permᴰ xs (lib.range xs))
        → Returns lib.setup.new_tcert
        → CleanLaw clean
        → started ≡ finished (l, g)
        → route clean g.mux p ≡ reached a h
        → AtEndpoint p a h
    start_main_guarded l g clean p a h order returns law started_up r =
        let (cfg, conf', registry, _, _, served) = started-finished l g started_up in
        let (made, _, _) =
          server_main-finished args (db_set registry) cfg.tls_disable conf' l g served in
        let s = setup_with lib (is_set g.enroll_signer) in
        route_sound s (lib.range (endpoints s)) clean g.mux p a h returns (order (endpoints s)) law
          made r

    -- If the configuration has LDAP for the user registry and startMain comes to listen, no accessor of the
    -- certificates is set.
    pub start_main_ldap :
        (cfg : Config) (conf' : CliConfig) (ldap : LdapConfig) (l : Listening) (g : Globals Signer)
        → config_init sys conf ≡ some (cfg, conf')
        → cfg.ldap ≡ some ldap
        → started ≡ finished (l, g)
        → g.cert_db_accessor ≡ false
    start_main_ldap cfg conf' ldap l g e is_ldap h =
        let (cfg2, conf2, registry, e2, f, _, set) = start_main_lem l g h in
        let same : cfg2 ≡ cfg = ap (λ x. x.0) (some-injective (sym e2 ∙ e)) in
        let no_db : db_set registry ≡ false =
          ldap_db cfg2 registry ldap (ap (λ x. x.ldap) same ∙ is_ldap) f in
        set ∙ ap (λ b. b && is_set g.enroll_signer) no_db

-- ===== src/Server/Serving.antt =====
-- cli/server/server.go: CreateHome, SignerFromConfigAndDB, serverMain and startMain; and initMain of
-- cli/server/init.go. CFSSL (its signers, platforms, command line and initca), BCCSP and the file system
-- are parameters. What listens is the result: net/http's loop behind it is not modelled.
use copfvtci.Prelude.{
  ◌++◌, Bool, true, false, Option, none, some, List, [], ◌∷◌, Text, text_eq, codes, is_empty,
  if◌then◌else◌,
}
use copfvtci.Errors.{
  Result, ok, err, library_error, Method, Run, finished, errored, crashed, exited, then_run, run_of,
  Outcome, returned, failed, panicked,
}
use copfvtci.Util.Json.{Files, written}
use copfvtci.Accessor.{Accessor, Json}
use copfvtci.Ldap.{UrlLib}
use copfvtci.Startup.{Engine, RegistryKind, ldap_registry, db_accessor, init_user_registry}
use copfvtci.Startup.Configuring.{CliConfig, System, config_init, server_config}
use copfvtci.Server.{Handler, Setup, endpoints, Mux, register_handlers}

-- the directories that are there, and what the file system does not do
pub record Dirs : Type 0 where
  pub there : List Text
  -- os.Stat fails, and not because the file is missing
  pub stat_fails : Text → Bool
  pub mkdir_fails : Text → Bool

unfoldable pub among : Text → List Text → Bool
among d [] = false
among d (e ∷ ds) = if text_eq d e then true else among d ds

abbrev pub or_default : Text → Text
or_default home = if is_empty home then codes "/var/hyperledger/fabric/dev/.fabric-cop" else home

abbrev pub under_home : Text → Text
under_home home = if is_empty home then [] else home ++ codes "/.cop"

-- which directory CreateHome takes
unfoldable pub home_dir : (Text → Text) → Text
home_dir getenv = or_default (
    if is_empty (getenv (codes "COP_HOME"))
    then under_home (getenv (codes "HOME"))
    else getenv (codes "COP_HOME"))

-- CreateHome
unfoldable pub create_home : (Text → Text) → Method Dirs Text
create_home getenv d =
    let home = home_dir getenv in
    if among home d.there
    then (ok home, d)
    else if d.stat_fails home
    then (ok home, d)
    else if d.mkdir_fails home
    then (err library_error, d)
    else (ok home, record d { there = home ∷ d.there })

-- a call that changes a state and can also panic or end the process
abbrev pub Process : Type 0 → Type 0 → Type 0
Process S A = S → Run A × S

abbrev pub go_on : {S A B : Type 0} → Run A × S → (A → Process S B) → Run B × S
go_on (finished a, s) rest = rest a s
go_on (errored e, s) rest = (errored e, s)
go_on (crashed, s) rest = (crashed, s)
go_on (exited, s) rest = (exited, s)

abbrev pub and_then : {S A B : Type 0} → Process S A → (A → Process S B) → Process S B
and_then p rest s = go_on (p s) rest

abbrev pub answer : {S A : Type 0} → Run A → Process S A
answer r s = (r, s)

-- a method of the directories, beside another state
abbrev pub in_dirs : {S A : Type 0} → Method Dirs A → Process (Dirs × S) A
in_dirs m (dirs, s) = (run_of (m dirs).0, ((m dirs).1, s))

module _ (Policy Signer : Type 0) where
  pub record SignerLib : Type 0 where
    -- config.DefaultConfig without profiles
    pub default_policy : Policy
    pub override_remotes : Text → Policy → Result Policy
    -- universal.NewSigner for the root of the configuration
    pub new_signer : Policy → Result Signer

  -- a signer, and whether it has an accessor of the certificates
  pub record WithAccessor : Type 0 where
    pub signer : Signer
    pub has_accessor : Bool

module _ {Policy Signer : Type 0} (lib : SignerLib Policy Signer) where
  abbrev pub policy_of : Option Policy → Policy
  policy_of none = lib.default_policy
  policy_of (some p) = p

  abbrev pub remote : Text → Policy → Result Policy
  remote url p = if is_empty url then ok p else lib.override_remotes url p

  abbrev pub signer_of : Result Policy → Result Signer
  signer_of (err e) = err e
  signer_of (ok p) = lib.new_signer p

  -- `if db != nil`; the state is whether certDBAccessor is set
  abbrev pub with_db : Bool → Result Signer → Method Bool (WithAccessor Policy Signer)
  with_db db (err e) set = (err e, set)
  with_db true (ok s) set = (ok (record { signer = s; has_accessor = true }), true)
  with_db false (ok s) set = (ok (record { signer = s; has_accessor = false }), set)

  -- SignerFromConfigAndDB
  unfoldable pub signer_from_config_and_db :
      Option Policy → Text → Bool → Method Bool (WithAccessor Policy Signer)
  signer_from_config_and_db cfg url db = with_db db (signer_of (remote url (policy_of cfg)))

-- what serverMain listens with
pub data Listening : Type 0 where
  mutual_tls : Text → Text → Text → Text → Listening
  tls : Text → Text → Text → Listening
  plain : Text → Listening

-- the global variables that serverMain sets
pub record Globals (Signer : Type 0) : Type 0 where
  pub enroll_signer : Option Signer
  pub ocsp_signer : Bool
  pub cert_db_accessor : Bool
  pub mux : Mux

pub record ServerLib (Policy Signer : Type 0) : Type 0 where
  pub signers : SignerLib Policy Signer
  pub load_platforms : Result (Unit {0})
  -- the signing policy of CFSSL's configuration, and its field Remote
  pub cfg_policy : Option Policy
  pub remote_url : Text
  -- ocspsign.SignerFromConfig gives a signer
  pub ocsp : Bool
  -- net.JoinHostPort of the address and the port
  pub addr : Text
  -- helpers.LoadPEMCertPool
  pub load_pool : Text → Result (Unit {0})
  -- the rest of what the constructors of the handlers read
  pub setup : Setup
  -- the order in which Go takes the map of endpoints
  pub range : List (Text × Run Handler) → List (Text × Run Handler)

abbrev pub signer_or_nil : {Policy A : Type 0} → Result (WithAccessor Policy A) → Option A
signer_or_nil (ok s) = some s.signer
signer_or_nil (err e) = none

abbrev pub is_set : {A : Type 0} → Option A → Bool
is_set none = false
is_set (some a) = true

-- the database's handle is set, unless the registry is LDAP's
abbrev pub db_set : RegistryKind → Bool
db_set (ldap_registry client) = false
db_set db_accessor = true

abbrev pub or_panic : {A : Type 0} → Option A → Run A
or_panic none = crashed
or_panic (some a) = finished a

abbrev pub run_outcome : {A : Type 0} → Outcome A → Run A
run_outcome (returned a) = finished a
run_outcome (failed e) = errored e
run_outcome panicked = crashed

module _ {Policy Signer : Type 0} (lib : ServerLib Policy Signer) where
  abbrev pub setup_with : Bool → Setup
  setup_with enroll = record (lib.setup) { enroll_signer = enroll; ocsp_signer = lib.ocsp }

  -- the last part of serverMain
  unfoldable pub listen : Bool → CliConfig → Run Listening
  listen tls_disable conf =
      if tls_disable
      then finished (plain lib.addr)
      else if is_empty conf.mutual_tls_ca_file
      then finished (tls lib.addr conf.tls_cert_file conf.tls_key_file)
      else (then_run (run_of (lib.load_pool conf.mutual_tls_ca_file)) λ _.
          finished
            (mutual_tls lib.addr conf.mutual_tls_ca_file conf.tls_cert_file conf.tls_key_file))

  -- serverMain: `db` says that the database's handle is set
  unfoldable pub server_main :
      List Text → Bool → Bool → CliConfig → Run (Listening × Globals Signer)
  server_main [] db tls_disable conf = then_run (run_of lib.load_platforms) λ _.
      let (signer, accessor) =
        signer_from_config_and_db lib.signers lib.cfg_policy lib.remote_url db false in
      let enroll = signer_or_nil signer in
      then_run (register_handlers (lib.range (endpoints (setup_with (is_set enroll)))) []) λ mux.
        then_run (listen tls_disable conf) λ listening. finished (
          listening,
          record {
            enroll_signer = enroll;
            ocsp_signer = lib.ocsp;
            cert_db_accessor = accessor;
            mux = mux;
          },
        )
  server_main (arg ∷ args) db tls_disable conf = errored library_error

  abbrev pub server_on :
      Outcome RegistryKind × Accessor
      → (RegistryKind → Run (Listening × Globals Signer))
      → Run (Listening × Globals Signer) × Accessor
  server_on (registry, db) rest = (then_run (run_outcome registry) rest, db)

  -- startMain, on the directories and the stored database
  unfoldable pub start_main :
      Json
      → UrlLib
      → Engine
      → copfvtci.Bootstrap.Config
      → Text
      → System
      → List Text
      → CliConfig
      → Process (Dirs × Accessor) (Listening × Globals Signer)
  start_main json urls engine groups random sys args conf =
      and_then (in_dirs (create_home sys.getenv)) λ home.
        and_then (answer (or_panic (config_init sys conf))) λ (cfg, conf') (dirs, db).
          let (started, db') =
            server_on (init_user_registry json urls engine groups random (server_config sys cfg) db)
              (λ registry. server_main args (db_set registry) cfg.tls_disable conf') in
          (started, (dirs, db'))

-- what initMain calls
pub record InitLib (Request : Type 0) : Type 0 where
  -- cli.ReadStdin of the file
  pub read_stdin : Text → Result Text
  -- json.Unmarshal into a request with a basic key request
  pub parse_request : Text → Result Request
  pub default_csp : Result (Unit {0})
  -- initca.New: the certificate and the key
  pub init_ca : Request → Result (Text × Text)

abbrev pub first_argument : List Text → Result Text
first_argument [] = err library_error
first_argument (arg ∷ args) = ok arg

-- `ioutil.WriteFile`, and log.Fatal if it fails
abbrev pub write_or_exit : Text → Text → Process (Dirs × Files) (Unit {0})
write_or_exit file buf (dirs, files) =
    if files.refuses file
    then (exited, (dirs, files))
    else (finished tt, (dirs, written file buf files))

-- initMain
unfoldable pub init_main :
    {Request : Type 0}
    → InitLib Request
    → (Text → Text)
    → List Text
    → Process (Dirs × Files) (Unit {0})
init_main lib getenv args = and_then (answer (run_of (first_argument args))) λ file.
    and_then (answer (run_of (lib.read_stdin file))) λ body.
      and_then (answer (run_of (lib.parse_request body))) λ req.
        and_then (answer (run_of lib.default_csp)) λ _.
          and_then (answer (run_of (lib.init_ca req))) λ (cert, key).
            and_then (in_dirs (create_home getenv)) λ home.
              and_then (write_or_exit (home ++ codes "/server-cert.pem") cert)
                λ _. write_or_exit (home ++ codes "/server-key.pem") key

-- ===== src/Tests/Serving.antt =====
-- Serving: theorems of Server.Routing, Server.Started and Server.Initialized at a server with LDAP.
use mathlib.Core.List.Permᴰ
use mathlib.Core.List.{Memᴰ}
use copfvtci.Prelude.{
  ◌≡◌, ◌↔◌, refl, inl, inr, true, false, ◌&&◌, none, some, [], ◌∷◌, Text, text_eq, codes,
  Bool-cases, if◌then◌else◌,
}
use copfvtci.Prelude.Int.{pos}
use copfvtci.Errors.{ok, Run, finished, returned}
use copfvtci.Auth.{auth_wrapper, wrapped_path}
use copfvtci.Ldap.{LdapConfig, UrlLib, new_client, client_from, default_port, host_port, cfg_val}
use copfvtci.Startup.{RegistryKind, init_user_registry}
use copfvtci.Startup.Configuring.{
  Config, CliConfig, System, make_file_abs, all_abs, abs_tls_client, abs_tls, abs_files,
  with_driver, abs_source, cli_config, config_init, server_config,
}
use copfvtci.Util.Json.{Files, written}
use copfvtci.Server.{register, Setup, endpoints, Mux, entry, register_handlers, reached, route}
use copfvtci.Server.Routing.{has_double, CleanLaw, route_enabled}
use copfvtci.Server.Table.{AtEndpoint}
use copfvtci.Server.Serving.{
  Dirs, among, home_dir, create_home, Listening, tls, plain, Globals, signer_from_config_and_db,
  ServerLib, listen, server_main, db_set, start_main, InitLib, init_main, first_argument,
}
use copfvtci.Server.Started.{started, start_main_lem, start_main_guarded}
use copfvtci.Server.Initialized.{cert_path, key_path, init_main_lem}
use copfvtci.Tests.Samples.{json}
use copfvtci.Tests.Starting.{engine, config}
use copfvtci.Tests.Enrolling.{file_config, system, cli}

-- every constructor returns a handler
abbrev setup : Setup
setup = record {
  enroll_signer = true;
  ocsp_signer = true;
  ca_bundle_file = [];
  int_bundle_file = [];
  new_tcert = finished tt;
  new_sign = ok tt;
  new_auth_sign = ok tt;
  new_info = ok tt;
  set_bundler = λ a b. ok tt;
  new_bundle = λ a b. ok tt;
  new_key = ok tt;
  new_scan = λ a. ok tt;
  find_box = ok tt;
}

abbrev server : ServerLib (Unit {0}) (Unit {0})
server = record {
  signers = record {
    default_policy = tt;
    override_remotes = λ url p. ok p;
    new_signer = λ p. ok tt;
  };
  load_platforms = ok tt;
  cfg_policy = none;
  remote_url = [];
  ocsp = true;
  addr = codes ":8888";
  load_pool = λ file. ok tt;
  setup = setup;
  range = λ xs. xs;
}

abbrev urls : UrlLib
urls = record {
  parse = λ s. some (record { scheme = codes "ldap"; host = codes "h"; user = none; path = [] });
  split_host_port = λ s. none;
  atoi = λ s. some (pos 389);
}

abbrev directory : LdapConfig
directory = record { url = codes "ldap://h"; base = []; user_filter = []; group_filter = [] }

abbrev ldap_config : Config
ldap_config = record file_config { ldap = some directory }

abbrev ldap_system : System
ldap_system = record system { parse = λ body. some ldap_config }

abbrev dirs : Dirs
dirs = record { there = []; stat_fails = λ d. false; mkdir_fails = λ d. false }

abbrev mux_of : Run Mux → Mux
mux_of (finished mux) = mux
mux_of _ = []

abbrev mux : Mux
mux = mux_of (register_handlers (endpoints setup) [])

abbrev listening : Listening
listening = tls (codes ":8888") (codes "/etc/ca.pem") (codes "/k.pem")

abbrev globals : Globals (Unit {0})
globals = record {
  enroll_signer = some tt;
  ocsp_signer = true;
  cert_db_accessor = false;
  mux = mux;
}

abbrev loaded : Config
loaded = record ldap_config {
  db_driver = codes "sqlite3";
  data_source = codes "/etc/cop.db";
  ca_file = codes "/etc/ca.pem";
  tls_conf = record {
    tls_cert_file = [];
    tls_key_file = [];
    mutual_tls_ca_file = [];
    db_client = record { ca_cert_files = codes "/etc/r.pem" ∷ []; cert_file = []; key_file = [] };
  };
}

loads : config_init ldap_system cli ≡ some (loaded, cli_config ldap_system cli loaded)
unfolding config_init abs_files abs_tls abs_tls_client all_abs make_file_abs with_driver abs_source
    cli_config text_eq
loads = refl

serves :
    started server json urls engine config (codes "rnd") ldap_system [] cli dirs none
    ≡ finished (listening, globals)
unfolding start_main create_home home_dir among config_init abs_files abs_tls abs_tls_client all_abs
    make_file_abs with_driver abs_source cli_config server_config init_user_registry new_client
    client_from default_port host_port cfg_val server_main signer_from_config_and_db
    register_handlers endpoints entry listen wrapped_path auth_wrapper text_eq
serves = refl

start_main_lem_example :
    (cfg : Config) × (conf' : CliConfig) × (registry : RegistryKind) × (config_init ldap_system cli
      ≡ some (cfg, conf'))
    × ((init_user_registry json urls engine config
          (codes "rnd")
          (server_config ldap_system cfg)
          none).0
        ≡ returned registry)
    × ((listening ≡ plain (codes ":8888")) ↔ (cfg.tls_disable ≡ true))
    × (false ≡ db_set registry && true)
start_main_lem_example =
    start_main_lem server json urls engine config (codes "rnd") ldap_system [] cli dirs none
      listening globals serves

-- path.Clean, where there is nothing to clean
abbrev clean : Text → Text
clean p = if has_double p then [] else p

clean-CleanLaw : CleanLaw clean
unfolding has_double
clean-CleanLaw p = elim (Bool-cases (has_double p)) [ inl e ↦ rw e refl | inr e ↦ rw (e, e) refl ]

reaches :
    route clean mux (codes "/api/v1/cfssl/register")
    ≡ reached (auth_wrapper (codes "register")) register
unfolding route has_double register_handlers endpoints entry wrapped_path auth_wrapper text_eq
reaches = refl

start_main_guarded_example :
    AtEndpoint (codes "/api/v1/cfssl/register") (auth_wrapper (codes "register")) register
start_main_guarded_example =
    start_main_guarded server json urls engine config (codes "rnd") ldap_system [] cli dirs none
      listening globals clean (codes "/api/v1/cfssl/register") (auth_wrapper (codes "register"))
      register (λ xs. Permᴰ.refl xs) tt clean-CleanLaw serves reaches

registers : register_handlers (endpoints setup) [] ≡ finished mux
unfolding register_handlers endpoints entry wrapped_path auth_wrapper text_eq
registers = refl

route_enabled_example :
    route clean mux (wrapped_path (codes "register"))
    ≡ reached (auth_wrapper (codes "register")) register
unfolding endpoints has_double wrapped_path
route_enabled_example =
    route_enabled setup (endpoints setup) clean mux (codes "register") register tt
      (Permᴰ.refl (endpoints setup)) (Memᴰ.head refl) refl registers

-- initca, which makes the certificate and the key of one request
abbrev authority : InitLib (Unit {0})
authority = record {
  read_stdin = λ file. ok (codes "{}");
  parse_request = λ body. ok tt;
  default_csp = ok tt;
  init_ca = λ req. ok (codes "cert", codes "key");
}

abbrev home_of : Text → Text
home_of name = if text_eq name (codes "COP_HOME") then codes "/cop" else []

abbrev files : Files
files = record { refuses = λ f. false; content = λ f. none }

abbrev after : Files
after = (init_main authority home_of (codes "csr.json" ∷ []) (dirs, files)).1.1

initializes : (init_main authority home_of (codes "csr.json" ∷ []) (dirs, files)).0 ≡ finished tt
unfolding init_main create_home home_dir among text_eq
initializes = refl

init_main_lem_example :
    (file : Text) × (body : Text) × (req : Unit {0}) × (cert : Text) × (key : Text)
    × (first_argument (codes "csr.json" ∷ []) ≡ ok file)
    × (authority.read_stdin file ≡ ok body)
    × (authority.parse_request body ≡ ok req)
    × (authority.init_ca req ≡ ok (cert, key))
    × (after
        ≡ written
            (key_path (home_dir home_of))
            key
            (written (cert_path (home_dir home_of)) cert files))
    × (after.content (key_path (home_dir home_of)) ≡ some key)
    × (after.content (cert_path (home_dir home_of)) ≡ some cert)
init_main_lem_example =
    init_main_lem authority home_of (codes "csr.json" ∷ []) dirs files initializes

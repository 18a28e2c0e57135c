-- ===== src/Startup/Configuring.antt =====
-- configInit, absTLSClient and abs of cli/server/config.go, and MakeFileAbs of util/util.go. The file
-- system, filepath, encoding/json and the environment are parameters. A panic is `none`: nothing else
-- fails here.
use copfvtci.Prelude.{
  Bool, not, Option, none, some, List, [], ◌∷◌, Text, text_eq, codes, is_empty, if◌then◌else◌,
}
use copfvtci.Prelude.Int.{ℤ}
use copfvtci.Ldap.{LdapConfig}
use copfvtci.Bootstrap.{ConfigUser}
use copfvtci.Startup.{ServerConfig}
use copfvtci.Startup.Sources.{ClientTls}

pub record TlsConfig : Type 0 where
  pub tls_cert_file : Text
  pub tls_key_file : Text
  pub mutual_tls_ca_file : Text
  pub db_client : ClientTls

-- Config, with its UserReg
pub record Config : Type 0 where
  pub debug : Bool
  pub authentication : Bool
  pub users : List ConfigUser
  pub db_driver : Text
  pub data_source : Text
  pub max_enrollments : ℤ
  pub ldap : Option LdapConfig
  pub ca_file : Text
  pub key_file : Text
  pub tls_conf : TlsConfig
  pub tls_disable : Bool

-- the part of CFSSL's cli.Config that configInit reads and writes
pub record CliConfig : Type 0 where
  pub config_file : Text
  pub db_config_file : Text
  pub tls_cert_file : Text
  pub tls_key_file : Text
  pub mutual_tls_ca_file : Text

pub record System : Type 0 where
  -- filepath.Abs, filepath.IsAbs, filepath.Join of two names and filepath.Dir
  pub abs : Text → Option Text
  pub is_abs : Text → Bool
  pub join : Text → Text → Text
  pub dir : Text → Text
  pub read_file : Text → Option Text
  -- json.Unmarshal into a new Config whose Authentication is set
  pub parse : Text → Option Config
  -- os.Getenv, "" if it is not set
  pub getenv : Text → Text
  -- strconv.Itoa
  pub itoa : ℤ → Text

abbrev pub and_some : {A B : Type 0} → Option A → (A → Option B) → Option B
and_some none f = none
and_some (some a) f = f a

-- `if val1 != "" { val1 } else { val2 }`
abbrev pub first_set : Text → Text → Text
first_set val1 val2 = if not (is_empty val1) then val1 else val2

module _ (sys : System) where
  unfoldable pub make_file_abs : Text → Text → Option Text
  make_file_abs file dir =
      if is_empty file
      then some []
      else if sys.is_abs file
      then some file
      else sys.abs (sys.join dir file)

  module _ (dir : Text) where
    unfoldable pub all_abs : List Text → Option (List Text)
    all_abs [] = some []
    all_abs (file ∷ files) =
        and_some (make_file_abs file dir)
          λ path. and_some (all_abs files) λ paths. some (path ∷ paths)

    -- absTLSClient
    unfoldable pub abs_tls_client : ClientTls → Option ClientTls
    abs_tls_client cfg = and_some (all_abs cfg.ca_cert_files) λ files.
        and_some (make_file_abs cfg.cert_file dir) λ cert.
          and_some (make_file_abs cfg.key_file dir)
            λ key. some (record { ca_cert_files = files; cert_file = cert; key_file = key })

    unfoldable pub abs_tls : TlsConfig → Option TlsConfig
    abs_tls cfg = and_some (make_file_abs cfg.tls_cert_file dir) λ cert.
        and_some (make_file_abs cfg.tls_key_file dir) λ key.
          and_some (make_file_abs cfg.mutual_tls_ca_file dir) λ ca.
            and_some (abs_tls_client cfg.db_client) λ client. some (record {
              tls_cert_file = cert;
              tls_key_file = key;
              mutual_tls_ca_file = ca;
              db_client = client;
            })

    unfoldable pub abs_files : Config → Option Config
    abs_files cfg = and_some (make_file_abs cfg.ca_file dir) λ ca.
        and_some (make_file_abs cfg.key_file dir) λ key.
          and_some (abs_tls cfg.tls_conf)
            λ tls. some (record cfg { ca_file = ca; key_file = key; tls_conf = tls })

    -- the default driver and source
    unfoldable pub with_driver : Config → Config
    with_driver cfg =
        if is_empty cfg.db_driver
        then record cfg { db_driver = codes "sqlite3"; data_source = codes "cop.db" }
        else cfg

    unfoldable pub abs_source : Config → Option Config
    abs_source cfg =
        if text_eq cfg.db_driver (codes "sqlite3")
        then and_some (make_file_abs cfg.data_source dir)
            (λ source. some (record cfg { data_source = source }))
        else some cfg

  -- the environment's COP_DEBUG
  abbrev pub with_debug : Config → Config
  with_debug cfg =
      if not (is_empty (sys.getenv (codes "COP_DEBUG")))
      then record cfg { debug = text_eq (sys.getenv (codes "COP_DEBUG")) (codes "true") }
      else cfg

  -- what configInit writes into CFSSL's configuration
  unfoldable pub cli_config : CliConfig → Config → CliConfig
  cli_config cli cfg = record {
    config_file = cli.config_file;
    db_config_file = first_set cli.db_config_file cli.config_file;
    tls_cert_file = first_set cfg.tls_conf.tls_cert_file cfg.ca_file;
    tls_key_file = first_set cfg.tls_conf.tls_key_file cfg.key_file;
    mutual_tls_ca_file = first_set cfg.tls_conf.mutual_tls_ca_file cli.mutual_tls_ca_file;
  }

  -- configInit
  unfoldable pub config_init : CliConfig → Option (Config × CliConfig)
  config_init cli = and_some (sys.abs cli.config_file) λ file. and_some (sys.read_file file) λ body.
      and_some (sys.parse body) λ cfg. and_some (abs_files (sys.dir file) cfg) λ placed.
        and_some (abs_source (sys.dir file) (with_driver (sys.dir file) placed))
          λ ready. some (with_debug ready, cli_config cli placed)

  -- what InitUserRegistry reads of the configuration
  unfoldable pub server_config : Config → ServerConfig
  server_config cfg = record {
    ldap = cfg.ldap;
    db_driver = cfg.db_driver;
    data_source = cfg.data_source;
    max_enrollments = cfg.max_enrollments;
    db_client = cfg.tls_conf.db_client;
    max_text = sys.itoa cfg.max_enrollments;
    users = cfg.users;
  }

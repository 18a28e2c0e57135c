-- ===== src/Tests/Enrolling.antt =====
-- Enrolling: theorems of Enroll and Startup.Paths at concrete inputs. The signer writes "c" before a
-- request and puts the certificate into the database; a path is absolute if it begins with a slash.
use copfvtci.Prelude.{
  ℕ, ◌≡◌, ◌↔◌, refl, Bool, true, false, Option, none, some, [], ◌∷◌, ◌++◌, Text, text_eq, codes,
  is_empty, ◌==◌,
}
use copfvtci.Prelude.Int.{pos}
use copfvtci.Errors.{Result, ok, err, Method, library_error, returned}
use copfvtci.Db.{Db}
use copfvtci.Certs.{CertificateRecord, insert_certificate}
use copfvtci.Auth.{Request, Checks}
use copfvtci.Accessor.{Accessor, db_registry}
use copfvtci.Enroll.{SignedBody, sign_endpoint, enroll_unchecked}
use copfvtci.Startup.Configuring.{
  Config, CliConfig, System, make_file_abs, all_abs, abs_tls_client, abs_tls, abs_files,
  with_driver, abs_source, cli_config, config_init,
}
use copfvtci.Startup.Paths.{Absolute, Placed, config_init_lem}
use copfvtci.Tests.Samples.{json, alice_name, db}

abbrev new_record : Text → CertificateRecord
new_record pem = record {
  serial = codes "2";
  aki = codes "k";
  ca_label = [];
  status = codes "good";
  reason = pos 0;
  expiry = 9;
  revoked_at = 0;
  pem = pem;
}

abbrev stored : Text → Result (Unit {0}) × Db → Result Text × Accessor
stored pem (ok u, db) = (ok pem, some db)
stored pem (err e, db) = (err e, some db)

-- signs, and puts the certificate into the database
abbrev pub sign_and_store : Text → Method Accessor Text
sign_and_store pem none = (err library_error, none)
sign_and_store pem (some db) =
    stored pem (insert_certificate (λ p. some alice_name) (new_record pem) db)

abbrev signer : Option (Text → Method Accessor Text)
signer = some (λ req. sign_and_store (codes "c" ++ req))

abbrev checks : Checks ℕ
checks = record {
  basic_auth = λ h. none;
  verify_token = λ t b. some 7;
  revoked_or_expired = λ c. false;
  checked = λ c. true;
  common_name = λ c. alice_name;
}

abbrev request : Request
request = record { authorization = codes "tok"; body = some (codes "csr"); eid = none }

-- the database with the certificate
abbrev after : Accessor
after = (sign_and_store (codes "ccsr") (some db)).1

enroll_unchecked_example :
    (sign_endpoint signer (λ b. some b) (db_registry json) checks (codes "enroll") request (some db)
      ≡ (returned (codes "ccsr"), after))
    ↔ SignedBody signer (λ b. some b) (some (codes "csr")) (some db) (codes "ccsr") after
enroll_unchecked_example =
    enroll_unchecked signer (λ b. some b) (db_registry json) checks request (some db) (codes "ccsr")
      after refl refl

abbrev pub rooted : Text → Bool
rooted [] = false
rooted (c ∷ s) = c == b'/'

abbrev pub file_config : Config
file_config = record {
  debug = false;
  authentication = true;
  users = [];
  db_driver = [];
  data_source = [];
  max_enrollments = pos 0;
  ldap = none;
  ca_file = codes "ca.pem";
  key_file = codes "/k.pem";
  tls_conf = record {
    tls_cert_file = [];
    tls_key_file = [];
    mutual_tls_ca_file = [];
    db_client = record { ca_cert_files = codes "r.pem" ∷ []; cert_file = []; key_file = [] };
  };
  tls_disable = false;
}

abbrev pub system : System
system = record {
  abs = λ p. some (b'/' ∷ p);
  is_abs = rooted;
  join = λ dir file. dir ++ file;
  dir = λ p. codes "etc/";
  read_file = λ p. some (codes "{}");
  parse = λ body. some file_config;
  getenv = λ name. [];
  itoa = λ n. [];
}

abbrev pub cli : CliConfig
cli = record {
  config_file = codes "cop.json";
  db_config_file = [];
  tls_cert_file = [];
  tls_key_file = [];
  mutual_tls_ca_file = [];
}

abbrev loaded : Config
loaded = record file_config {
  db_driver = codes "sqlite3";
  data_source = codes "/etc/cop.db";
  ca_file = codes "/etc/ca.pem";
  tls_conf = record file_config.tls_conf {
    db_client = record file_config.tls_conf.db_client { ca_cert_files = codes "/etc/r.pem" ∷ [] };
  };
}

config_init_lem_example :
    Placed system loaded
    × Absolute system (codes "/etc/ca.pem")
    × Absolute system (codes "/k.pem")
    × (is_empty (codes "sqlite3") ≡ false)
    × (codes "sqlite3" ≡ codes "sqlite3" → Absolute system (codes "/etc/cop.db"))
unfolding config_init abs_files abs_tls abs_tls_client all_abs make_file_abs with_driver abs_source
    cli_config text_eq
config_init_lem_example =
    config_init_lem system (λ p q h. cc) cli (cli_config system cli loaded) loaded refl

-- ===== src/Tests/Starting.antt =====
-- Starting: theorems of Bootstrap and Startup at a concrete configuration.
use copfvtci.Prelude.{
  ◌≡◌, ◌++◌, refl, inr, true, false, none, some, List, [], ◌∷◌, Text, text_eq, codes, if◌then◌else◌,
}
use copfvtci.Prelude.Int.{pos}
use copfvtci.Errors.{returned}
use copfvtci.Db.{Db}
use copfvtci.Ldap.{UrlLib}
use copfvtci.Strings.{to_lower, lower_byte, has_prefix}
use copfvtci.Startup.Sources.{
  dbname, get_db_name, find_name, match_at, name_at, get_conn_str, replace_names, mysql_conn_str,
  replace_paths,
}
use copfvtci.Startup.Naming.{mentions, has_slash, has_space, set_apart, get_db_name_lem}
use copfvtci.Bootstrap.{Config, ConfigUser}
use copfvtci.Bootstrap.Users.{DistinctNames}
use copfvtci.Startup.{Engine, ServerConfig, db_accessor, init_user_registry}
use copfvtci.Startup.Filling.{Bootstrapped}
use copfvtci.Startup.Database.{Works, init_user_registry_new, init_user_registry_again}
use copfvtci.Tests.Samples.{json, db}

abbrev pub names_at : Text → List Text
names_at key =
    if text_eq key (codes "groups")
    then codes "banks" ∷ []
    else if text_eq key (codes "groups.banks")
    then codes "bank" ∷ codes "trust" ∷ []
    else []

abbrev pub config : Config
config = record { string_slice = λ key. codes "desk" ∷ []; map_keys = names_at }

abbrev pub empty_db : Db
empty_db = record db { tables = record { users = []; groups = []; certificates = [] } }

-- the engine answers every call
abbrev pub engine : Engine
engine = record {
  clean = λ s. s;
  stat_fails = false;
  opens = λ s. true;
  pings = true;
  lists = true;
  creates = true;
  tables_error = none;
  created = empty_db;
}

engine-Works : Works engine
engine-Works = record {
  opens = λ s. refl;
  stat_fails = refl;
  pings = refl;
  lists = refl;
  creates = refl;
  tables_error = refl;
}

abbrev pub lib : UrlLib
lib = record { parse = λ s. none; split_host_port = λ s. none; atoi = λ s. none }

abbrev admin : ConfigUser
admin = record {
  name = codes "admin";
  pass = codes "adminpw";
  type = codes "client";
  group = codes "bank";
  attributes = [];
}

abbrev auditor : ConfigUser
auditor = record {
  name = codes "audit";
  pass = codes "pw";
  type = codes "auditor";
  group = [];
  attributes = [];
}

abbrev two_users : List ConfigUser
two_users = admin ∷ auditor ∷ []

two_users-DistinctNames : DistinctNames two_users
unfolding text_eq
two_users-DistinctNames = ((refl, tt), (tt, tt))

abbrev server_config : Text → ServerConfig
server_config driver = record {
  ldap = none;
  db_driver = driver;
  data_source = codes "cop.db";
  max_enrollments = pos 5;
  db_client = record { ca_cert_files = []; cert_file = []; key_file = [] };
  max_text = codes "5";
  users = two_users;
}

init_user_registry_new_example :
    (new : Db) × (init_user_registry json lib engine config
        (codes "rnd")
        (server_config (codes "mysql"))
        none
      ≡ (returned db_accessor, some new))
    × Bootstrapped json lib engine config (codes "rnd") (server_config (codes "mysql")) empty_db new
init_user_registry_new_example =
    init_user_registry_new json lib engine config (codes "rnd") (server_config (codes "mysql"))
      engine-Works refl refl (inr (inr refl)) (λ n. refl) two_users-DistinctNames

init_user_registry_again_example :
    (new : Db) × (init_user_registry json lib engine config
        (codes "rnd")
        (server_config (codes "sqlite3"))
        (some db)
      ≡ (returned db_accessor, some new))
    × Bootstrapped json lib engine config (codes "rnd") (server_config (codes "sqlite3")) db new
init_user_registry_again_example =
    init_user_registry_again json lib engine config (codes "rnd") (server_config (codes "sqlite3"))
      db engine-Works refl refl refl (λ n. refl) two_users-DistinctNames

url_name : get_db_name (codes "postgres://u:p@h/db") ≡ codes "u:p@h"
unfolding get_db_name find_name match_at name_at to_lower lower_byte has_prefix
url_name = refl

path_before_name : get_db_name (codes "k=/c dbname=x") ≡ codes "c dbname=x"
unfolding get_db_name find_name match_at name_at to_lower lower_byte has_prefix
path_before_name = refl

capital_name : get_db_name (codes "u@h/COP?a=b") ≡ codes "cop"
unfolding get_db_name find_name match_at name_at to_lower lower_byte has_prefix
capital_name = refl

digit_left : mysql_conn_str (codes "u@h/cop1?a=b") ≡ codes "u@h/1?a=b"
unfolding mysql_conn_str replace_paths
digit_left = refl

name_removed : get_conn_str (codes "u=a dbname=x s=b") ≡ codes "u=a  s=b"
unfolding get_conn_str replace_names name_at has_prefix
name_removed = refl

get_db_name_lem_example :
    (get_db_name (codes "user=a" ++ 32 ∷ (dbname ++ codes "Cop" ++ codes " ssl=no"))
      ≡ to_lower (codes "Cop"))
    × (get_conn_str (codes "user=a" ++ 32 ∷ (dbname ++ codes "Cop" ++ codes " ssl=no"))
        ≡ codes "user=a" ++ 32 ∷ get_conn_str (codes " ssl=no"))
unfolding mentions has_slash has_space set_apart to_lower lower_byte has_prefix
get_db_name_lem_example =
    get_db_name_lem (codes "user=a") (codes "Cop") (codes " ssl=no") refl refl refl refl refl

-- ===== src/Startup.antt =====
-- The start of the server: cli/server/factory.go (InitUserRegistry), the functions of
-- cli/server/dbutil/dbutil.go that it calls, and bootstrapDB of cli/server/server.go. The state is the
-- database behind the configured source, `none` if it is not there; the registry's handle is on it. What
-- the file system and the engine answer to the calls of one start are parameters. A source without a name,
-- which SQLite takes for a database of its own without tables, has no handle here.
pub mod Filling
pub mod Database
pub mod Configuring
pub mod Paths
pub mod Sources
pub mod Naming
use copfvtci.Prelude.{
  ℕ, Bool, true, false, not, Option, none, some, List, [], ◌∷◌, Text, text_eq, codes, is_empty,
  if◌then◌else◌,
}
use copfvtci.Prelude.Int.{ℤ}
use copfvtci.Errors.{
  Error, Result, ok, err, Method, ◌>>=◌, ◌>>◌, pure, cop_error, database_error, library_error,
  Outcome, returned, failed, panicked,
}
use copfvtci.Db.{Db}
use copfvtci.Accessor.{Accessor, Json, db_registry}
use copfvtci.Ldap.{LdapConfig, LdapClient, UrlLib, new_client}
use copfvtci.Startup.Sources.{ClientTls, postgres_conn_str, mysql_conn_str, with_db_name}
use copfvtci.Bootstrap.{ConfigUser, attempt, populate_groups_table, populate_users_table}

pub record Engine : Type 0 where
  -- filepath.Join of one name
  pub clean : Text → Text
  -- os.Stat fails, and not because the file is missing
  pub stat_fails : Bool
  -- sqlx.Open accepts the source
  pub opens : Text → Bool
  pub pings : Bool
  -- the query for the name of the database is answered
  pub lists : Bool
  -- CREATE DATABASE succeeds
  pub creates : Bool
  -- the error of the first CREATE TABLE that fails, and the database that the statements leave
  pub tables_error : Option Error
  pub created : Db

-- a call that changes the stored database and may fail or panic
abbrev pub Starting : Type 0 → Type 0
Starting A = Accessor → Outcome A × Accessor

abbrev pub then_starting :
    {A B : Type 0} → Outcome A × Accessor → (A → Starting B) → Outcome B × Accessor
then_starting (returned a, s) rest = rest a s
then_starting (failed e, s) rest = (failed e, s)
then_starting (panicked, s) rest = (panicked, s)

abbrev tables_made : Option Error → Outcome (Unit {0})
tables_made none = returned tt
tables_made (some e) = failed e

module _ (engine : Engine) where
  -- sqlx.Open of the source, and what the function then returns
  abbrev pub opened : Text → Bool → Starting Bool
  opened source exists s =
      (if engine.opens source then returned exists else failed library_error, s)

  unfoldable pub create_sqlite_tables : Text → Starting (Unit {0})
  create_sqlite_tables source s =
      if engine.opens source
      then (tables_made engine.tables_error, some engine.created)
      else (failed (cop_error database_error), s)

  -- `if _, err := os.Stat(datasource); err != nil { … }`, and then Open
  abbrev stat_and_open : Text → Starting Bool
  stat_and_open source none =
      if engine.stat_fails
      then opened source true none
      else then_starting (create_sqlite_tables source none) (λ _. opened source false)
  stat_and_open source (some db) = opened source engine.stat_fails (some db)

  -- NewUserRegistrySQLLite3: whether the database exists already
  unfoldable pub new_user_registry_sqlite : Text → Starting Bool
  new_user_registry_sqlite source s =
      if is_empty (engine.clean source)
      then opened (engine.clean source) false s
      else stat_and_open (engine.clean source) s

  -- the CREATE TABLEs on a second handle, which is nil if it could not be opened
  abbrev tables_on : Text → Starting (Unit {0})
  tables_on source s =
      if engine.opens source
      then (tables_made engine.tables_error, some engine.created)
      else (panicked, s)

  unfoldable pub create_postgres_tables : Text → Starting (Unit {0})
  create_postgres_tables source s =
      if engine.creates then tables_on source s else (failed (cop_error database_error), s)

  abbrev listed_postgres : ClientTls → Text → Starting Bool
  listed_postgres client source none =
      then_starting (create_postgres_tables (with_db_name client source) none)
        (λ _. opened source false)
  listed_postgres client source (some db) = opened source true (some db)

  -- NewUserRegistryPostgres; an unanswered query wraps an error that is nil, which panics
  unfoldable pub new_user_registry_postgres : ClientTls → Text → Starting Bool
  new_user_registry_postgres client source s =
      if not (engine.opens (postgres_conn_str client source))
      then (failed (cop_error database_error), s)
      else if not engine.pings
      then (failed library_error, s)
      else if not engine.lists
      then (panicked, s)
      else listed_postgres client source s

  -- an error of a CREATE TABLE is returned to a caller that drops it
  abbrev dropped : Outcome (Unit {0}) × Accessor → Outcome (Unit {0}) × Accessor
  dropped (returned a, s) = (returned a, s)
  dropped (failed e, s) = (returned tt, s)
  dropped (panicked, s) = (panicked, s)

  unfoldable pub create_mysql_tables : Text → Starting (Unit {0})
  create_mysql_tables source s = if engine.creates then tables_on source s else (panicked, s)

  abbrev listed_mysql : Text → Starting Bool
  listed_mysql source none =
      then_starting (dropped (create_mysql_tables source none)) (λ _. opened source false)
  listed_mysql source (some db) = opened source true (some db)

  -- NewUserRegistryMySQL; what goes wrong with its TLS configuration or the Ping is only logged
  unfoldable pub new_user_registry_mysql : Text → Starting Bool
  new_user_registry_mysql source s =
      if not (engine.opens (mysql_conn_str source))
      then (failed (cop_error database_error), s)
      else if not engine.lists
      then (failed (cop_error database_error), s)
      else listed_mysql source s

-- the part of Config that InitUserRegistry reads
pub record ServerConfig : Type 0 where
  pub ldap : Option LdapConfig
  pub db_driver : Text
  pub data_source : Text
  -- TLSConf.DBClient
  pub db_client : ClientTls
  pub max_enrollments : ℤ
  -- strconv.Itoa of it
  pub max_text : Text
  pub users : List ConfigUser

pub data RegistryKind : Type 0 where
  ldap_registry : LdapClient → RegistryKind
  db_accessor : RegistryKind

module _ (json : Json) (lib : UrlLib) (engine : Engine) (groups : copfvtci.Bootstrap.Config)
    (random : Text) (cfg : ServerConfig) where
  -- bootstrapDB
  unfoldable pub bootstrap_db : Method Accessor (Unit {0})
  bootstrap_db = do
    attempt (db_registry json) (populate_groups_table (db_registry json) groups)
    attempt (db_registry json)
        (populate_users_table (db_registry json) cfg.max_enrollments cfg.max_text random cfg.users)
    pure tt

  unfoldable pub open_database : Starting Bool
  open_database s =
      if text_eq cfg.db_driver (codes "sqlite3")
      then new_user_registry_sqlite engine cfg.data_source s
      else if text_eq cfg.db_driver (codes "postgres")
      then new_user_registry_postgres engine cfg.db_client cfg.data_source s
      else if text_eq cfg.db_driver (codes "mysql")
      then new_user_registry_mysql engine cfg.data_source s
      else (failed library_error, s)

  abbrev bootstrapped : Result (Unit {0}) × Accessor → Outcome RegistryKind × Accessor
  bootstrapped (ok a, s) = (returned db_accessor, s)
  bootstrapped (err e, s) = (failed e, s)

  abbrev pub unless_exists : Bool → Starting RegistryKind
  unless_exists true s = (returned db_accessor, s)
  unless_exists false s = bootstrapped (bootstrap_db s)

  abbrev pub of_ldap : Result LdapClient → Outcome RegistryKind
  of_ldap (ok client) = returned (ldap_registry client)
  of_ldap (err e) = failed e

  abbrev pub with_registry : Option LdapConfig → Starting RegistryKind
  with_registry (some ldap) s = (of_ldap (new_client lib (some ldap)), s)
  with_registry none s = then_starting (open_database s) unless_exists

  -- InitUserRegistry
  unfoldable pub init_user_registry : Starting RegistryKind
  init_user_registry s = with_registry cfg.ldap s

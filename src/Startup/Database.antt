-- ===== src/Startup/Database.antt =====
-- What cli/server/factory.go leaves of the database at the first start and at a restart.
use copfvtci.Prelude.{
  ◌≡◌, ◌≢◌, ◌⊎◌, refl, ap, ◌∙◌, inl, inr, Bool, true, false, none, some, Text, text_eq, codes,
  is_empty, Bool-cases,
}
use copfvtci.Errors.{
  ok, Outcome, returned, failed, panicked, cop_error, database_error, library_error,
}
use copfvtci.Db.{Db}
use copfvtci.Accessor.{Json, Accessor}
use copfvtci.Accessor.Enrollment.{Up}
use copfvtci.Ldap.{UrlLib}
use copfvtci.Bootstrap.{Config}
use copfvtci.Bootstrap.Users.{DistinctNames}
use copfvtci.Startup.{
  Engine, ServerConfig, db_accessor, create_sqlite_tables, new_user_registry_sqlite,
  create_postgres_tables, new_user_registry_postgres, create_mysql_tables, new_user_registry_mysql,
  bootstrap_db, open_database, unless_exists, with_registry, then_starting, init_user_registry,
}
use copfvtci.Startup.Sources.{postgres_conn_str, mysql_conn_str, with_db_name}
use copfvtci.Startup.Filling.{Bootstrapped, bootstrap_db_lem}

-- every call of the start is answered
pub record Works (engine : Engine) : Type 0 where
  pub opens : (source : Text) → engine.opens source ≡ true
  pub stat_fails : engine.stat_fails ≡ false
  pub pings : engine.pings ≡ true
  pub lists : engine.lists ≡ true
  pub creates : engine.creates ≡ true
  pub tables_error : engine.tables_error ≡ none

module _ (json : Json) (lib : UrlLib) (engine : Engine) (groups : Config) (random : Text)
    (cfg : ServerConfig) where
  unless_exists-false :
      (db new : Db)
      → bootstrap_db json lib engine groups random cfg (some db) ≡ (ok tt, some new)
      → unless_exists json lib engine groups random cfg false (some db)
        ≡ (returned db_accessor, some new)
  unless_exists-false db new h = rw h

  init_user_registry-open :
      (s t : Accessor) (exists : Bool)
      → cfg.ldap ≡ none
      → open_database json lib engine groups random cfg s ≡ (returned exists, t)
      → init_user_registry json lib engine groups random cfg s
        ≡ unless_exists json lib engine groups random cfg exists t
  unfolding init_user_registry
  init_user_registry-open s t exists no_ldap opened =
      ap (λ ldap. with_registry json lib engine groups random cfg ldap s) no_ldap
      ∙ ap (λ r. then_starting r (unless_exists json lib engine groups random cfg)) opened

  opens_new :
      Works engine
      → is_empty (engine.clean cfg.data_source) ≡ false
      → (cfg.db_driver ≡ codes "sqlite3")
        ⊎ ((cfg.db_driver ≡ codes "postgres") ⊎ (cfg.db_driver ≡ codes "mysql"))
      → open_database json lib engine groups random cfg none ≡ (returned false, some engine.created)
  unfolding open_database new_user_registry_sqlite create_sqlite_tables new_user_registry_postgres
      create_postgres_tables new_user_registry_mysql create_mysql_tables text_eq
  opens_new w named (inl e) =
      simp (e, named, w.stat_fails, w.opens (engine.clean cfg.data_source), w.tables_error)
  opens_new w named (inr (inl e)) = simp (
    e,
    w.opens (postgres_conn_str cfg.db_client cfg.data_source),
    w.pings,
    w.lists,
    w.creates,
    w.opens (with_db_name cfg.db_client cfg.data_source),
    w.tables_error,
    w.opens cfg.data_source,
  )
  opens_new w named (inr (inr e)) = simp (
    e,
    w.opens (mysql_conn_str cfg.data_source),
    w.lists,
    w.creates,
    w.opens cfg.data_source,
    w.tables_error,
  )

  -- an outcome that never says that a database is to be filled
  abbrev Settled : Outcome Bool → Type 0
  Settled o = o ≢ returned false

  after_open :
      (o : Outcome Bool) (s : Accessor)
      → Settled o
      → (then_starting (o, s) (unless_exists json lib engine groups random cfg)).1 ≡ s
  after_open (returned true) s h = refl
  after_open (returned false) s h = absurd (h refl)
  after_open (failed e) s h = refl
  after_open panicked s h = refl

  open_postgres :
      (db : Db)
      → (o : Outcome Bool) × (new_user_registry_postgres engine cfg.db_client cfg.data_source
            (some db)
          ≡ (o, some db))
        × Settled o
  unfolding new_user_registry_postgres
  open_postgres db =
      elim (Bool-cases (engine.opens (postgres_conn_str cfg.db_client cfg.data_source))) [
        | inr e ↦ (failed (cop_error database_error), simp e, λ k. absurd (cc))
        | inl e ↦ elim (Bool-cases engine.pings) [
          | inr f ↦ (failed library_error, simp (e, f), λ k. absurd (cc))
          | inl f ↦ elim (Bool-cases engine.lists) [
            | inr g ↦ (panicked, simp (e, f, g), λ k. absurd (cc))
            | inl g ↦ elim (Bool-cases (engine.opens cfg.data_source)) [
              | inr k ↦ (failed library_error, simp (e, f, g, k), λ l. absurd (cc))
              | inl k ↦ (returned true, simp (e, f, g, k), λ l. absurd (cc))
            ]
          ]
        ]
      ]

  open_mysql :
      (db : Db)
      → (o : Outcome Bool) × (new_user_registry_mysql engine cfg.data_source (some db)
          ≡ (o, some db))
        × Settled o
  unfolding new_user_registry_mysql
  open_mysql db = elim (Bool-cases (engine.opens (mysql_conn_str cfg.data_source))) [
    | inr e ↦ (failed (cop_error database_error), simp e, λ k. absurd (cc))
    | inl e ↦ elim (Bool-cases engine.lists) [
      | inr g ↦ (failed (cop_error database_error), simp (e, g), λ k. absurd (cc))
      | inl g ↦ elim (Bool-cases (engine.opens cfg.data_source)) [
        | inr k ↦ (failed library_error, simp (e, g, k), λ l. absurd (cc))
        | inl k ↦ (returned true, simp (e, g, k), λ l. absurd (cc))
      ]
    ]
  ]

  open_server :
      (db : Db)
      → (cfg.db_driver ≡ codes "postgres") ⊎ (cfg.db_driver ≡ codes "mysql")
      → (o : Outcome Bool) × (open_database json lib engine groups random cfg (some db)
          ≡ (o, some db))
        × Settled o
  unfolding open_database text_eq
  open_server db (inl e) = let (o, h, k) = open_postgres db in (o, simp (e, h), k)
  open_server db (inr e) = let (o, h, k) = open_mysql db in (o, simp (e, h), k)

  opens_again :
      (db : Db)
      → Works engine
      → (cfg.db_driver ≡ codes "postgres") ⊎ (cfg.db_driver ≡ codes "mysql")
      → open_database json lib engine groups random cfg (some db) ≡ (returned true, some db)
  unfolding open_database new_user_registry_postgres new_user_registry_mysql text_eq
  opens_again db w (inl e) = simp (
    e,
    w.opens (postgres_conn_str cfg.db_client cfg.data_source),
    w.pings,
    w.lists,
    w.opens cfg.data_source,
  )
  opens_again db w (inr e) =
      simp (e, w.opens (mysql_conn_str cfg.data_source), w.lists, w.opens cfg.data_source)

  opens_sqlite_again :
      (db : Db)
      → Works engine
      → is_empty (engine.clean cfg.data_source) ≡ false
      → cfg.db_driver ≡ codes "sqlite3"
      → open_database json lib engine groups random cfg (some db) ≡ (returned false, some db)
  unfolding open_database new_user_registry_sqlite text_eq
  opens_sqlite_again db w named e =
      simp (e, named, w.opens (engine.clean cfg.data_source), w.stat_fails)

  -- The first start, where the database is not there and every call is answered: InitUserRegistry makes
  -- the database with its tables and chooses it for the user registry, and then the groups and the users
  -- of the configuration are in it, each valid user who was not yet with the configured password and
  -- limit. The data
  -- source of SQLite has a name, LDAP is not configured, and the users have different names.
  pub init_user_registry_new :
      Works engine
      → cfg.ldap ≡ none
      → is_empty (engine.clean cfg.data_source) ≡ false
      → (cfg.db_driver ≡ codes "sqlite3")
        ⊎ ((cfg.db_driver ≡ codes "postgres") ⊎ (cfg.db_driver ≡ codes "mysql"))
      → Up engine.created
      → DistinctNames cfg.users
      → (new : Db) × (init_user_registry json lib engine groups random cfg none
          ≡ (returned db_accessor, some new))
        × Bootstrapped json lib engine groups random cfg engine.created new
  init_user_registry_new w no_ldap named driver up distinct =
      let (new, done, all) =
        bootstrap_db_lem json lib engine groups random cfg engine.created up distinct in
      (
        new,
        init_user_registry-open none (some engine.created) false no_ldap (opens_new w named driver)
            ∙ unless_exists-false engine.created new done,
        all,
      )

  -- A restart on Postgres or MySQL, where the database is there: whether or not the start succeeds,
  -- InitUserRegistry changes nothing in it, and if every call is answered, it is the user registry.
  pub init_user_registry_kept :
      (db : Db)
      → cfg.ldap ≡ none
      → (cfg.db_driver ≡ codes "postgres") ⊎ (cfg.db_driver ≡ codes "mysql")
      → ((init_user_registry json lib engine groups random cfg (some db)).1 ≡ some db)
        × (Works engine
            → init_user_registry json lib engine groups random cfg (some db)
              ≡ (returned db_accessor, some db))
  unfolding init_user_registry
  init_user_registry_kept db no_ldap driver =
      let (o, opened, settled) = open_server db driver in
      (
        ap (λ ldap. (with_registry json lib engine groups random cfg ldap (some db)).1) no_ldap
            ∙ ap (λ r. (then_starting r (unless_exists json lib engine groups random cfg)).1) opened
            ∙ after_open o (some db) settled,
        λ w. init_user_registry-open (some db) (some db) true no_ldap (opens_again db w driver),
      )

  -- A restart on SQLite, where the file is there and every call is answered, bootstraps the database once
  -- more, since NewUserRegistrySQLLite3 reports that it does not exist: every valid user of the
  -- configuration whom the table no longer holds is entered again with the configured password. LDAP is
  -- not configured, and the users have different names.
  pub init_user_registry_again :
      (db : Db)
      → Works engine
      → cfg.ldap ≡ none
      → is_empty (engine.clean cfg.data_source) ≡ false
      → cfg.db_driver ≡ codes "sqlite3"
      → Up db
      → DistinctNames cfg.users
      → (new : Db) × (init_user_registry json lib engine groups random cfg (some db)
          ≡ (returned db_accessor, some new))
        × Bootstrapped json lib engine groups random cfg db new
  init_user_registry_again db w no_ldap named driver up distinct =
      let (new, done, all) = bootstrap_db_lem json lib engine groups random cfg db up distinct in
      (
        new,
        init_user_registry-open (some db) (some db) false no_ldap
              (opens_sqlite_again db w named driver)
            ∙ unless_exists-false db new done,
        all,
      )

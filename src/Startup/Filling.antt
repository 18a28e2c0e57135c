-- ===== src/Startup/Filling.antt =====
-- What bootstrapDB of cli/server/server.go leaves of the database.
use copfvtci.Prelude.{
  ◌≡◌, refl, sym, ap, ◌∙◌, inl, inr, true, none, some, List, [], ◌∷◌, Text, text_eq, text_eq_iff,
  codes, All, Bool-cases,
}
use copfvtci.Errors.{Method, ok}
use copfvtci.Db.{Db, UserRecord, user_is}
use copfvtci.Db.Rows.{find_row}
use copfvtci.Accessor.{Json, Accessor, db_registry}
use copfvtci.Accessor.Enrollment.{Up}
use copfvtci.Ldap.{UrlLib}
use copfvtci.Bootstrap.{ConfigUser, Config, attempt, populate_groups_table, populate_users_table}
use copfvtci.Bootstrap.Groups.{Extends, Loaded, populate_groups_table_lem}
use copfvtci.Bootstrap.Users.{
  Apart, DistinctNames, valid_user, configured, stored, populate_users_table_lem,
}
use copfvtci.Startup.{Engine, ServerConfig, bootstrap_db}

attempt-ok :
    (json : Json) (m : Method Accessor (Unit {0})) (a b : Accessor)
    → m a ≡ (ok tt, b)
    → attempt (db_registry json) m a ≡ (ok tt, b)
unfolding attempt
attempt-ok json m a b h = rw h

module _ (json : Json) (lib : UrlLib) (engine : Engine) (groups : Config) (random : Text)
    (cfg : ServerConfig) where
  -- the groups and the users of the configuration are in the table, and what was there is as it was
  pub record Bootstrapped (old new : Db) : Type 0 where
    pub up : Up new
    pub loaded : Db
    pub extends : Extends old loaded
    pub all_groups :
        All
          (λ name. Loaded groups 1 (codes "groups") name loaded)
          (groups.map_keys (codes "groups"))
    pub same_groups : new.groups ≡ loaded.groups
    pub new_users :
        All
          (λ (u : ConfigUser).
            find_row (user_is u.name) old.users ≡ none
            → valid_user u loaded ≡ true
            → find_row (user_is u.name) new.users
              ≡ some (configured json cfg.max_enrollments cfg.max_text random u))
          cfg.users
    pub kept :
        (n : Text) (r : UserRecord)
        → find_row (user_is n) old.users ≡ some r
        → find_row (user_is n) new.users ≡ some r

  abbrev Stored : Db → Db → ConfigUser → Type 0
  Stored mid new u =
      find_row (user_is u.name) new.users
      ≡ stored json cfg.max_enrollments cfg.max_text random u mid

  configured_rows :
      (old mid new : Db) (users : List ConfigUser)
      → mid.users ≡ old.users
      → All (Stored mid new) users
      → All
          (λ (u : ConfigUser).
            find_row (user_is u.name) old.users ≡ none
            → valid_user u mid ≡ true
            → find_row (user_is u.name) new.users
              ≡ some (configured json cfg.max_enrollments cfg.max_text random u))
          users
  unfolding stored
  configured_rows old mid new [] same h = tt
  configured_rows old mid new (u ∷ users) same (h, hs) =
      (λ absent valid. h ∙ rw (same, absent, valid) refl, configured_rows old mid new users same hs)

  kept_row :
      (mid new : Db) (users : List ConfigUser) (n : Text) (r : UserRecord)
      → All (Stored mid new) users
      → find_row (user_is n) mid.users ≡ some r
      → (Apart n users → find_row (user_is n) new.users ≡ find_row (user_is n) mid.users)
      → find_row (user_is n) new.users ≡ some r
  unfolding stored
  kept_row mid new [] n r h there others = others tt ∙ there
  kept_row mid new (u ∷ users) n r (h, hs) there others = elim (Bool-cases (text_eq u.name n)) [
    | inl e ↦
        let same = (text_eq_iff u.name n).0 e in
        let at_u : find_row (user_is u.name) mid.users ≡ some r =
          ap (λ m. find_row (user_is m) mid.users) same ∙ there in
        ap (λ m. find_row (user_is m) new.users) (sym same) ∙ h ∙ rw at_u refl
    | inr e ↦ kept_row mid new users n r hs there (λ apart. others (e, apart))
  ]

  pub bootstrap_db_lem :
      (db : Db)
      → Up db
      → DistinctNames cfg.users
      → (new : Db) × (bootstrap_db json lib engine groups random cfg (some db) ≡ (ok tt, some new))
        × Bootstrapped db new
  unfolding bootstrap_db
  bootstrap_db_lem db up distinct =
      let (mid, first, grown, all) = populate_groups_table_lem groups json db up in
      let (new, rest, up', same, users, others) =
        populate_users_table_lem json cfg.max_enrollments cfg.max_text random cfg.users mid
          (grown.up up) distinct in
      (
        new,
        rw (
          attempt-ok json (populate_groups_table (db_registry json) groups) (some db) (some mid)
              first,
          attempt-ok json
              (populate_users_table (db_registry json) cfg.max_enrollments cfg.max_text random
                cfg.users)
              (some mid) (some new) rest,
        ),
        record {
          up = up';
          loaded = mid;
          extends = grown;
          all_groups = all;
          same_groups = same;
          new_users = configured_rows db mid new cfg.users grown.users users;
          kept = λ n r h.
              kept_row mid new cfg.users n r users (ap (find_row (user_is n)) grown.users ∙ h)
                (others n);
        },
      )

-- ===== src/Register/OnDb.antt =====
-- registerUserID of cli/server/register.go over the registry of cli/server/dbaccessor.go: what it stores,
-- and what it leaves behind when the engine fails on the way.
use copfvtci.Prelude.{
  ◌+◌, ◌≤◌, ◌≡◌, ◌≢◌, refl, ap, ◌∙◌, ◌⊎◌, inl, inr, true, false, none, some, List, [], ◌∷◌, ◌++◌,
  arith, Text, text_eq, text_eq_iff, text_eq_refl, if◌then◌else◌,
}
use copfvtci.Prelude.Int.{ℤ}
use copfvtci.Errors.{Result, ok, err, Method, cop_error, registering_user_error, db_error, outage}
use copfvtci.Spi.{Attribute, UserInfo}
use copfvtci.Db.{Db, UserRecord, mysql, user_is, with_max, exec, effect, affected, violates, query}
use copfvtci.Db.Rows.{
  find_row, update_rows, count_rows, count_rows-append, count_rows-find_row-none,
  count_rows-find_row-some, count_rows-update_rows, find_row-update_rows,
}
use copfvtci.Accessor.{
  Json, Accessor, with_db, db_registry, get_user, get_db_user, insert_user, update_field, user_row,
  new_db_user,
}
use copfvtci.Accessor.Users.{find-added, fresh_user}
use copfvtci.Accessor.Enrollment.{Up, get_db_user_up}
use copfvtci.Register.{register_user_id, token_of}

-- the record that a registration inserts
abbrev pub new_info : Text → Text → Text → Text → List Attribute → UserInfo
new_info id tok user_type group attributes = record {
  name = id;
  pass = tok;
  type = user_type;
  group = group;
  attributes = attributes;
}

abbrev pub users_of : Accessor → List UserRecord
users_of none = []
users_of (some db) = db.users

-- no two rows have one id
abbrev pub Unique : List UserRecord → Type 0
Unique users = (n : Text) → count_rows (user_is n) users ≤ 1

module _ (json : Json) (max : ℤ) (random id user_type group : Text) (attributes : List Attribute)
    (opt : List Text) where
  abbrev pub registration : Method Accessor Text
  registration = register_user_id (db_registry json) max random id user_type group attributes opt

  abbrev pub info : UserInfo
  info = new_info id (token_of opt random) user_type group attributes

  abbrev pub registered : Db → Db
  registered db = record db {
    clock = db.clock + 1 + 1 + 1;
    tables = record db.tables {
      users = update_rows (user_is id) (with_max max) (db.users ++ user_row json info ∷ []);
    };
  }

  pub registration-fresh :
      (db : Db)
      → find_row (user_is id) db.users ≡ none
      → db.down db.clock ≡ false
      → db.down (db.clock + 1) ≡ false
      → db.down (db.clock + 1 + 1) ≡ false
      → registration (some db) ≡ (ok (token_of opt random), some (registered db))
  unfolding register_user_id with_db get_user get_db_user query insert_user update_field exec
      violates affected effect
  registration-fresh db fresh up up' up'' = ground arith

  pub find-registered :
      (db : Db)
      → find_row (user_is id) db.users ≡ none
      → find_row (user_is id) (registered db).users ≡ some (with_max max (user_row json info))
  find-registered db fresh =
      find_row-update_rows (user_is id) (with_max max) (λ x. refl)
        (db.users ++ user_row json info ∷ []) (user_row json info)
        (find-added json info db.users fresh)

  -- Registering a new id on an engine that answers returns the token (the one given, or the random
  -- one), and GetUser then finds the user with that token for its password, no enrollment counted and
  -- the configured limit.
  pub registration-get_db_user :
      (db : Db)
      → find_row (user_is id) db.users ≡ none
      → Up db
      → json.unmarshal (json.marshal attributes) ≡ some attributes
      → (registration (some db) ≡ (ok (token_of opt random), some (registered db)))
        × ((get_db_user json id (registered db)).0
            ≡ ok (record (fresh_user info) { max_enrollments = max }))
  unfolding new_db_user
  registration-get_db_user db fresh up decodes = (
    registration-fresh db fresh (up db.clock) (up (db.clock + 1)) (up (db.clock + 1 + 1)),
    rw
        (get_db_user_up json id (with_max max (user_row json info)) (registered db)
          (up (db.clock + 1 + 1 + 1)) (find-registered db fresh))
        (rw decodes),
  )

  -- An id that is taken is refused with RegisteringUserError, and nothing is written.
  pub registration_taken :
      (db : Db) (r : UserRecord)
      → find_row (user_is id) db.users ≡ some r
      → db.down db.clock ≡ false
      → registration (some db)
        ≡ (err (cop_error registering_user_error), some (record db { clock = db.clock + 1 }))
  unfolding register_user_id with_db get_user get_db_user query
  registration_taken db r taken up = ground arith

  -- If the engine fails at the last statement only, the call reports the failure and the user stays
  -- registered all the same, with the limit 0, which Login reads as no limit.
  pub registration_half_done :
      (db : Db)
      → find_row (user_is id) db.users ≡ none
      → db.down db.clock ≡ false
      → db.down (db.clock + 1) ≡ false
      → db.down (db.clock + 1 + 1) ≡ true
      → ((registration (some db)).0 ≡ err (db_error outage))
        × (find_row (user_is id) (users_of (registration (some db)).1) ≡ some (user_row json info))
  unfolding register_user_id with_db get_user get_db_user query insert_user update_field exec
      violates affected effect
  registration_half_done db fresh up up' down = ground (arith, find-added json info db.users fresh)

  -- the lists of users that a registration can leave
  users_after :
      (db : Db)
      → db.down db.clock ≡ false
      → (users_of (registration (some db)).1 ≡ db.users)
        ⊎ ((find_row (user_is id) db.users ≡ none)
            × ((users_of (registration (some db)).1 ≡ db.users ++ user_row json info ∷ [])
                ⊎ (users_of (registration (some db)).1 ≡ (registered db).users)))
  unfolding register_user_id with_db get_user get_db_user query insert_user update_field exec
      violates affected effect
  users_after db up = ground arith

  registration_at_outage :
      (db : Db)
      → db.driver ≢ mysql
      → db.down db.clock ≡ true
      → db.down (db.clock + 1) ≡ false
      → db.down (db.clock + 1 + 1) ≡ false
      → registration (some db) ≡ (ok (token_of opt random), some (registered db))
  unfolding register_user_id with_db get_user get_db_user query insert_user update_field exec
      violates affected effect
  registration_at_outage db other down up up' = ground arith

  count_added :
      (n : Text) (db : Db)
      → count_rows (user_is n) (db.users ++ user_row json info ∷ [])
        ≡ count_rows (user_is n) db.users + (if text_eq id n then 1 else 0)
  unfolding count_rows
  count_added n db = count_rows-append (user_is n) db.users (user_row json info ∷ []) ∙ ground arith

  count_registered :
      (n : Text) (db : Db)
      → count_rows (user_is n) (registered db).users
        ≡ count_rows (user_is n) db.users + (if text_eq id n then 1 else 0)
  count_registered n db =
      count_rows-update_rows (user_is n) (user_is id) (with_max max) (λ x. refl)
        (db.users ++ user_row json info ∷ [])
      ∙ count_added n db

  -- If the engine fails at the lookup only, an id that is taken is registered again: the call succeeds
  -- and one more row has the id (on a driver whose users table has no key).
  pub registration_again :
      (db : Db) (r : UserRecord)
      → db.driver ≢ mysql
      → find_row (user_is id) db.users ≡ some r
      → db.down db.clock ≡ true
      → db.down (db.clock + 1) ≡ false
      → db.down (db.clock + 1 + 1) ≡ false
      → ((registration (some db)).0 ≡ ok (token_of opt random))
        × (2 ≤ count_rows (user_is id) (users_of (registration (some db)).1))
  registration_again db r other taken down up up' =
      let e = registration_at_outage db other down up up' in
      (
        ap (λ (p : Result Text × Accessor). p.0) e,
        rw e (
            ground (
              arith,
              count_registered id db,
              text_eq_refl id,
              count_rows-find_row-some (user_is id) db.users r taken,
            )),
      )

  none_of :
      (n : Text) (db : Db)
      → find_row (user_is id) db.users ≡ none
      → text_eq id n ≡ true
      → count_rows (user_is n) db.users ≡ 0
  none_of n db fresh same =
      rw (← (text_eq_iff id n).0 same) (count_rows-find_row-none (user_is id) db.users fresh)

  -- A registration keeps ids unique, wherever the engine fails but at its first lookup.
  pub registration-Unique :
      (db : Db)
      → db.down db.clock ≡ false
      → Unique db.users
      → Unique (users_of (registration (some db)).1)
  registration-Unique db up unique n = elim (users_after db up) [
    | inl e ↦ rw e (unique n)
    | inr (fresh, inl e) ↦
        rw e (ground (arith, count_added n db, unique n, text_eq_iff id n, none_of n db fresh))
    | inr (fresh, inr e) ↦
        rw e (ground (arith, count_registered n db, unique n, text_eq_iff id n, none_of n db fresh))
  ]

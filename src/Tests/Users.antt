-- ===== src/Tests/Users.antt =====
-- Users in the database: theorems of Accessor/Users, Accessor/History and Register/OnDb at concrete inputs.
use copfvtci.Prelude.{◌≤◌, ◌≡◌, refl, false, some, List, [], ◌∷◌, Text, text_eq, codes, arith, ◌==◌}
use copfvtci.Prelude.Int.{pos}
use copfvtci.Errors.{ok}
use copfvtci.Db.{Db, sqlite3, postgres, user_is}
use copfvtci.Db.Rows.{find_row, count_rows}
use copfvtci.Accessor.{get_db_user}
use copfvtci.Accessor.Users.{fresh_user}
use copfvtci.Accessor.History.{Call, deletes, inserts_group}
use copfvtci.Register.{token_of}
use copfvtci.Register.OnDb.{
  registration, registered, info, users_of, Unique, registration-get_db_user, registration-Unique,
}
use copfvtci.Tests.Samples.{json, alice_name, bob_name, db_on, db, role}

abbrev pg : Db
pg = db_on postgres (λ _. false)

abbrev calls : List Call
calls = inserts_group (codes "eu") (codes "bank") ∷ deletes alice_name ∷ []

registration-get_db_user_example :
    (registration json
        (pos 5)
        (codes "rnd")
        bob_name
        (codes "peer")
        (codes "bank")
        (role ∷ [])
        []
        (some db)
      ≡ (
        ok (token_of [] (codes "rnd")),
        some (
            registered json
              (pos 5)
              (codes "rnd")
              bob_name
              (codes "peer")
              (codes "bank")
              (role ∷ [])
              []
              db),
      ))
    × ((get_db_user json bob_name (
          registered json
            (pos 5)
            (codes "rnd")
            bob_name
            (codes "peer")
            (codes "bank")
            (role ∷ [])
            []
            db)).0
        ≡ ok
            (record (fresh_user (
              info json
                (pos 5)
                (codes "rnd")
                bob_name
                (codes "peer")
                (codes "bank")
                (role ∷ [])
                [])) { max_enrollments = pos 5 }))
unfolding find_row text_eq
registration-get_db_user_example =
    registration-get_db_user json (pos 5) (codes "rnd") bob_name (codes "peer") (codes "bank")
      (role ∷ []) [] db refl (λ n. refl) refl

one_alice : (n : Text) → count_rows (user_is n) db.users ≤ 1
unfolding count_rows
one_alice n = ground arith

registration-Unique_example : Unique (
    users_of
      (registration json
        (pos 5)
        (codes "rnd")
        bob_name
        (codes "peer")
        (codes "bank")
        (role ∷ [])
        []
        (some db)).1)
registration-Unique_example =
    registration-Unique json (pos 5) (codes "rnd") bob_name (codes "peer") (codes "bank")
      (role ∷ []) [] db refl one_alice

abbrev down_third : Db
down_third = db_on sqlite3 (λ n. n == 2)

abbrev down_first : Db
down_first = db_on sqlite3 (λ n. n == 0)

-- ===== src/Tests/Logins.antt =====
-- Logins: theorems of Accessor/Login and Accessor/Enrollment at concrete inputs.
use copfvtci.Prelude.{◌+◌, ◌≡◌, refl, List, [], ◌∷◌, Text, text_eq, codes, arith}
use copfvtci.Db.Rows.{find_row, count_rows}
use copfvtci.Accessor.Login.{attempts, sign_in, Counts, attempts_within_limit}
use copfvtci.Accessor.Enrollment.{login_spec, login_writes, sign_in_lem}
use copfvtci.Tests.Samples.{json, alice_name, pw, alice, db}

abbrev tries : List Text
tries = pw ∷ codes "no" ∷ pw ∷ pw ∷ []

attempts_within_limit_example :
    Counts alice_name 3
      (1 + (attempts json alice_name tries db).0)
      (attempts json alice_name tries db).1
unfolding find_row text_eq
attempts_within_limit_example =
    attempts_within_limit json alice_name 3 1 tries db (omega arith) (omega arith)
      (alice, 1, refl, refl, refl, omega arith, omega arith)

sign_in_lem_example :
    ((sign_in json alice_name pw db).0 ≡ login_spec pw alice)
    × ((sign_in json alice_name pw db).1.tables ≡ login_writes pw alice db.tables)
unfolding find_row count_rows text_eq
sign_in_lem_example = sign_in_lem json alice_name pw alice db (λ n. refl) (refl, refl)

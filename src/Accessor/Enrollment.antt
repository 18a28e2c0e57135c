-- ===== src/Accessor/Enrollment.antt =====
-- DBUser.Login with one row for the user and an engine that answers: when it lets a user in, what
-- two handles on one user do, and what disabling a user by its state does.
use copfvtci.Prelude.{
  ℕ, zero, suc, ◌+◌, ◌≡◌, refl, ap, ◌∙◌, Bool, true, false, not, ◌&&◌, ◌||◌, some, arith, Text,
  text_eq, text_eq_iff, if◌then◌else◌,
}
use mathlib.Core.Path.{fun_ext}
use copfvtci.Prelude.Int.{ℤ, pos, negsuc, leb_ℤ, is_zero_ℤ, suc_ℤ}
use copfvtci.Errors.{
  Result, ok, err, is_ok, cop_error, authorization_failure, max_enrollments_reached,
}
use copfvtci.Db.{
  Db, Tables, UserRecord, user_is, with_state, exec, effect, violates, affected, query, set_state,
  eq_ℤ,
}
use copfvtci.Db.Rows.{
  find_row, update_rows, count_rows, find_row-update_rows, find_row-true, count_rows-and_one,
  count_rows-update_rows,
}
use copfvtci.Accessor.{Json, DbUser, login, get_db_user, new_db_user, update_field, state_field}
use copfvtci.Accessor.Login.{sign_in}

-- the engine answers every statement
abbrev pub Up : Db → Type 0
Up db = (n : ℕ) → db.down n ≡ false

-- `r` is the only row of its name
abbrev pub Only : Text → UserRecord → Db → Type 0
Only id r db = (find_row (user_is id) db.users ≡ some r) × (count_rows (user_is id) db.users ≡ 1)

-- what Login asks of a user's counters: no limit, or room below it
abbrev pub may_enroll : ℤ → ℤ → Bool
may_enroll max state = not (leb_ℤ (pos 0) max) || is_zero_ℤ max || not (leb_ℤ max state)

suc-ne : (n : ℤ) → eq_ℤ n (suc_ℤ n) ≡ false
suc-ne (pos n) = ground arith
suc-ne (negsuc zero) = refl
suc-ne (negsuc (suc n)) = ground arith

-- writing another state touches exactly the user's one row
affected-set_state :
    (changed : Bool) (id : Text) (n : ℤ) (r : UserRecord) (t : Tables)
    → find_row (user_is id) t.users ≡ some r
    → count_rows (user_is id) t.users ≡ 1
    → (changed && eq_ℤ r.state n) ≡ false
    → affected changed (set_state n id) t ≡ 1
unfolding affected
affected-set_state changed id n r t found one ne =
    count_rows-and_one (user_is id) (λ x. not (changed && eq_ℤ x.state n)) t.users r found one
      (ap not ne)

-- The whole of Login on the user that GetUser read: the password, then the limit, then the count.
unfoldable pub login_spec : Text → UserRecord → Result (Unit {0})
login_spec pass r =
    if text_eq r.pass pass
    then (if may_enroll r.max_enrollments r.state then ok tt else err max_enrollments_reached)
    else err (cop_error authorization_failure)

-- The tables after a login on a user that allows it.
abbrev pub login_writes : Text → UserRecord → Tables → Tables
login_writes pass r t =
    if text_eq r.pass pass
      && may_enroll r.max_enrollments r.state
      && leb_ℤ (pos 0) r.max_enrollments
    then record t { users = update_rows (user_is r.name) (with_state (suc_ℤ r.state)) t.users }
    else t

pub get_db_user_up :
    (json : Json) (id : Text) (r : UserRecord) (db : Db)
    → db.down db.clock ≡ false
    → find_row (user_is id) db.users ≡ some r
    → get_db_user json id db ≡ (ok (new_db_user json r), record db { clock = db.clock + 1 })
unfolding get_db_user query
get_db_user_up json id r db up found = rw (up, found)

-- Login is `login_spec` on the row it was read from, and writes the count and nothing else.
pub login_up :
    (json : Json) (pass : Text) (r : UserRecord) (db : Db)
    → db.down db.clock ≡ false
    → affected db.counts_changed (set_state (suc_ℤ r.state) r.name) db.tables ≡ 1
    → ((login (new_db_user json r) pass db).0 ≡ login_spec pass r)
      × ((login (new_db_user json r) pass db).1.tables ≡ login_writes pass r db.tables)
unfolding new_db_user login exec login_spec violates effect
login_up json pass r db up one = ground arith

row_name :
    (id : Text) (r : UserRecord) (db : Db) → find_row (user_is id) db.users ≡ some r → r.name ≡ id
row_name id r db found = (text_eq_iff r.name id).0 (find_row-true (user_is id) db.users r found)

counted_once :
    (id : Text) (r : UserRecord) (db : Db)
    → Only id r db
    → affected db.counts_changed (set_state (suc_ℤ r.state) r.name) db.tables ≡ 1
counted_once id r db (found, one) =
    ap (λ k. affected db.counts_changed (set_state (suc_ℤ r.state) k) db.tables)
      (row_name id r db found)
    ∙ affected-set_state db.counts_changed id (suc_ℤ r.state) r db.tables found one
        (ground (arith, suc-ne r.state))

-- A user with one row, on an engine that answers, is let in exactly when the password is the stored one
-- and the limit is negative, 0 or above the stored count. What is written is the count, and only when
-- the user was let in with a limit that is not negative.
pub sign_in_lem :
    (json : Json) (id pass : Text) (r : UserRecord) (db : Db)
    → Up db
    → Only id r db
    → ((sign_in json id pass db).0 ≡ login_spec pass r)
      × ((sign_in json id pass db).1.tables ≡ login_writes pass r db.tables)
unfolding sign_in
sign_in_lem json id pass r db up (found, one) =
    rw (get_db_user_up json id r db (up db.clock) found) (
      login_up json pass r (record db { clock = db.clock + 1 }) (up (db.clock + 1))
        (counted_once id r (record db { clock = db.clock + 1 }) (found, one)))

and-true : (b : Bool) → (b && true) ≡ b
and-true true = refl
and-true false = refl

affected_all :
    (id : Text) (n : ℤ) (t : Tables)
    → affected false (set_state n id) t ≡ count_rows (user_is id) t.users
unfolding affected
affected_all id n t = ap (λ p. count_rows p t.users) (fun_ext (λ r. and-true (user_is id r)))

-- `k` requests that read the user before any of them logged in, and log in one after the other.
unfoldable pub stale_logins : DbUser → Text → ℕ → Db → ℕ × Db
stale_logins u pass zero db = (0, db)
stale_logins u pass (suc k) db =
    let (r, mid) = login u pass db in
    let (n, last) = stale_logins u pass k mid in (if is_ok r then n + 1 else n, last)

login-keeps :
    (json : Json) (pass : Text) (r : UserRecord) (db : Db)
    → ((login (new_db_user json r) pass db).1.down ≡ db.down)
      × ((login (new_db_user json r) pass db).1.counts_changed ≡ db.counts_changed)
unfolding new_db_user login exec
login-keeps json pass r db = ground arith

login-ok :
    (json : Json) (pass : Text) (r : UserRecord) (db : Db)
    → Up db
    → db.counts_changed ≡ false
    → count_rows (user_is r.name) db.users ≡ 1
    → text_eq r.pass pass ≡ true
    → may_enroll r.max_enrollments r.state ≡ true
    → ((login (new_db_user json r) pass db).0 ≡ ok tt)
      × (count_rows (user_is r.name) (login (new_db_user json r) pass db).1.users ≡ 1)
login-ok json pass r db up whole one right room =
    let counted : affected db.counts_changed (set_state (suc_ℤ r.state) r.name) db.tables ≡ 1 =
      rw whole (affected_all r.name (suc_ℤ r.state) db.tables ∙ one) in
    let (result, written) = login_up json pass r db (up db.clock) counted in
    (
      result ∙ (unfold login_spec in ground arith),
      ap (λ (t : Tables). count_rows (user_is r.name) t.users) written
          ∙ ground (
            arith,
            count_rows-update_rows (user_is r.name) (user_is r.name) (with_state (suc_ℤ r.state))
                (λ x. refl) db.users,
          ),
    )

-- The limit does not hold for requests that overlap: on an engine that counts every matched row, all
-- `k` of the requests that read a user with room for one more enrollment are let in.
pub stale_logins_all :
    (json : Json) (pass : Text) (r : UserRecord) (k : ℕ) (db : Db)
    → Up db
    → db.counts_changed ≡ false
    → count_rows (user_is r.name) db.users ≡ 1
    → text_eq r.pass pass ≡ true
    → may_enroll r.max_enrollments r.state ≡ true
    → (stale_logins (new_db_user json r) pass k db).0 ≡ k
unfolding stale_logins
stale_logins_all json pass r zero db up whole one right room = refl
stale_logins_all json pass r (suc k) db up whole one right room =
    let (result, still) = login-ok json pass r db up whole one right room in
    let (same_down, same_count) = login-keeps json pass r db in
    rw result (
      ground (
        arith,
        stale_logins_all json pass r k (login (new_db_user json r) pass db).1
            (λ n. ap (λ (d : ℕ → Bool). d n) same_down ∙ up n) (same_count ∙ whole) still right
            room,
      ))

abbrev pub minus_one : ℤ
minus_one = negsuc 0

disable_lem :
    (id : Text) (r : UserRecord) (db : Db)
    → Up db
    → Only id r db
    → ((update_field id state_field minus_one db).0 ≡ ok tt)
      × Only id (with_state minus_one r) (update_field id state_field minus_one db).1
      × ((update_field id state_field minus_one db).1.down ≡ db.down)
unfolding update_field exec violates effect
disable_lem id r db up (found, one) = rw (up db.clock) (
    ground (
      arith,
      find_row-update_rows (user_is id) (with_state minus_one) (λ x. refl) db.users r found,
      count_rows-update_rows (user_is id) (user_is id) (with_state minus_one) (λ x. refl) db.users,
    ))

-- Writing -1 to a user's state, which is how a revoke request disables a user, succeeds and then
-- refuses nobody: whatever the limit and the count were, the next login with the right password is let
-- in, and with a wrong one it is not.
pub sign_in-disabled :
    (json : Json) (id pass : Text) (r : UserRecord) (db : Db)
    → Up db
    → Only id r db
    → ((update_field id state_field minus_one db).0 ≡ ok tt)
      × ((sign_in json id pass (update_field id state_field minus_one db).1).0
          ≡ (if text_eq r.pass pass then ok tt else err (cop_error authorization_failure)))
sign_in-disabled json id pass r db up only =
    let (done, left, same) = disable_lem id r db up only in
    (
      done,
      (sign_in_lem json id pass (with_state minus_one r)
            (update_field id state_field minus_one db).1
            (λ n. ap (λ (d : ℕ → Bool). d n) same ∙ up n) left).0
          ∙ (unfold login_spec in ground arith),
    )

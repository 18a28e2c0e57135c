-- ===== src/Accessor/Login.antt =====
-- DBUser.Login of cli/server/dbaccessor.go: the limit on enrollments.
use copfvtci.Prelude.{
  ℕ, ◌+◌, ◌≤◌, ◌<◌, ◌≡◌, refl, ap, ◌∙◌, ◌⊎◌, inl, inr, Bool, false, some, List, [], ◌∷◌, arith,
  Text, text_eq_iff, if◌then◌else◌,
}
use mathlib.Core.Path.{subst}
use copfvtci.Prelude.Int.{pos, max_int}
use native.Mathlib.Nat.{add-zero}
use copfvtci.Errors.{ok, err, Method, ◌>>=◌, is_ok, db_error, outage}
use copfvtci.Db.{Db, Tables, UserRecord, user_is, with_state, exec, effect, violates, query}
use copfvtci.Db.Rows.{find_row, update_rows, find_row-update_rows, find_row-true}
use copfvtci.Accessor.{Json, DbUser, login, get_db_user, new_db_user}

-- GetUser and then Login on the user that it returned, as auth.go calls them.
unfoldable pub sign_in : Json → Text → Text → Method Db (Unit {0})
sign_in json id pass = do u ← get_db_user json id; login u pass

-- What a list of attempts leaves: how many succeeded, and the database.
unfoldable pub attempts : Json → Text → List Text → Db → ℕ × Db
attempts json id [] db = (0, db)
attempts json id (p ∷ ps) db =
    let (r, mid) = sign_in json id p db in
    let (n, last) = attempts json id ps mid in (if is_ok r then n + 1 else n, last)

abbrev set_count : Text → ℕ → Tables → Tables
set_count id n t = record t { users = update_rows (user_is id) (with_state (pos n)) t.users }

pub login-cases :
    (u : DbUser) (pass : Text) (db : Db) (m s : ℕ)
    → u.max_enrollments ≡ pos m
    → u.state ≡ pos s
    → 0 < m
    → m ≤ max_int
    → ((login u pass db).1.tables ≡ db.tables) × (is_ok (login u pass db).0 ≡ false)
      ⊎ ((login u pass db).1.tables ≡ set_count u.name (s + 1) db.tables) × (s < m)
unfolding login exec effect violates
login-cases u pass db m s hm hs pos_m small = rw (hm, hs) (ground arith)

-- The first row of `id` allows `m` enrollments and has counted at least `s` of them, and no more than
-- it allows.
abbrev pub Counts : Text → ℕ → ℕ → Db → Type 0
Counts id m s db =
    (r : UserRecord) × (n : ℕ) × (find_row (user_is id) db.users ≡ some r)
    × (r.max_enrollments ≡ pos m)
    × (r.state ≡ pos n)
    × (s ≤ n)
    × (n ≤ m)

-- GetUser leaves the tables alone, and returns the first row or fails.
pub get_db_user-cases :
    (json : Json) (id : Text) (db : Db) (r : UserRecord)
    → find_row (user_is id) db.users ≡ some r
    → ((get_db_user json id db).1.tables ≡ db.tables)
      × (((get_db_user json id db).0 ≡ ok (new_db_user json r))
          ⊎ ((get_db_user json id db).0 ≡ err (db_error outage)))
unfolding get_db_user query
get_db_user-cases json id db r h = rw h (ground arith)

module _ (id : Text) (m : ℕ) where
  Counts-tables : (s : ℕ) (a b : Db) → b.tables ≡ a.tables → Counts id m s a → Counts id m s b
  Counts-tables s a b e (r, n, found, hm, hn, sn, nm) =
      (r, n, ap (λ (t : Tables). find_row (user_is id) t.users) e ∙ found, hm, hn, sn, nm)

  find-set_count :
      (n : ℕ) (r : UserRecord) (a b : Db)
      → find_row (user_is id) a.users ≡ some r
      → b.tables ≡ set_count r.name n a.tables
      → find_row (user_is id) b.users ≡ some (with_state (pos n) r)
  find-set_count n r a b found e =
      ap (λ (t : Tables). find_row (user_is id) t.users) e
      ∙ ap (λ k. find_row (user_is id) (update_rows (user_is k) (with_state (pos n)) a.users))
          ((text_eq_iff r.name id).0 (find_row-true (user_is id) a.users r found))
      ∙ find_row-update_rows (user_is id) (with_state (pos n)) (λ x. refl) a.users r found

  module _ (json : Json) (pass : Text) (pos_m : 0 < m) (small : m ≤ max_int) where
    login-Counts :
        (s n : ℕ) (r : UserRecord) (db : Db)
        → find_row (user_is id) db.users ≡ some r
        → r.max_enrollments ≡ pos m
        → r.state ≡ pos n
        → s ≤ n
        → n ≤ m
        → Counts id m
            (if is_ok (login (new_db_user json r) pass db).0 then s + 1 else s)
            (login (new_db_user json r) pass db).1
    unfolding new_db_user
    login-Counts s n r db found hm hn sn nm =
        elim (login-cases (new_db_user json r) pass db m n hm hn pos_m small) [
          | inl (same, failed) ↦ rw failed (
              Counts-tables s db (login (new_db_user json r) pass db).1 same
                (r, n, found, hm, hn, sn, nm))
          | inr (counted, room) ↦ (
            with_state (pos (n + 1)) r,
            n + 1,
            find-set_count (n + 1) r db (login (new_db_user json r) pass db).1 found counted,
            hm,
            refl,
            ground arith,
            omega arith,
          )
        ]

    sign_in-Counts :
        (s : ℕ) (db : Db)
        → Counts id m s db
        → Counts id m
            (if is_ok (sign_in json id pass db).0 then s + 1 else s)
            (sign_in json id pass db).1
    unfolding sign_in
    sign_in-Counts s db (r, n, found, hm, hn, sn, nm) =
        let (same, outcome) = get_db_user-cases json id db r found in
        elim outcome [
          | inl e ↦ rw e (
              login-Counts s n r (get_db_user json id db).1
                (ap (λ (t : Tables). find_row (user_is id) t.users) same ∙ found) hm hn sn nm)
          | inr e ↦
              rw e
                (Counts-tables s db (get_db_user json id db).1 same (r, n, found, hm, hn, sn, nm))
        ]

count_shift : (b : Bool) (s n : ℕ) → (if b then s + 1 else s) + n ≡ s + (if b then n + 1 else n)
count_shift b s n = ground arith

-- Whatever passwords are tried in turn, and wherever the engine fails: a user who is allowed `m`
-- enrollments (`m` positive) and has counted `s` of them gets at most `m - s` more logins, and the
-- stored count is then at least `s` plus those logins and at most `m`.
pub attempts_within_limit :
    (json : Json) (id : Text) (m s : ℕ) (ps : List Text) (db : Db)
    → 0 < m
    → m ≤ max_int
    → Counts id m s db
    → Counts id m (s + (attempts json id ps db).0) (attempts json id ps db).1
unfolding attempts
attempts_within_limit json id m s [] db pos_m small c = rw add-zero c
attempts_within_limit json id m s (p ∷ ps) db pos_m small c =
    let counted = is_ok (sign_in json id p db).0 in
    let mid = (sign_in json id p db).1 in
    subst (λ k. Counts id m k (attempts json id ps mid).1)
      (count_shift counted s (attempts json id ps mid).0)
      (attempts_within_limit json id m (if counted then s + 1 else s) ps mid pos_m small
        (sign_in-Counts id m json p pos_m small s db c))

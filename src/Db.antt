-- ===== src/Db.antt =====
-- The database behind the server: the tables that cli/server/dbutil/dbutil.go creates, and the SQL
-- statements of cli/server/dbaccessor.go and certdbaccessor.go as functions on them.
-- The engine itself is not in the repository: when it fails, what time it reads and whether it counts
-- the rows that an UPDATE leaves as they were are fields of `Db`, over which every theorem ranges.
pub mod Rows
use copfvtci.Prelude.{
  ℕ, ◌+◌, Bool, true, false, not, ◌&&◌, ◌||◌, Option, none, some, List, [], ◌∷◌, ◌++◌, Text,
  text_eq, if◌then◌else◌, codes, ◌==◌,
}
use copfvtci.Prelude.Int.{ℤ, pos, leb_ℤ}
use copfvtci.Errors.{
  Result, ok, err, Method, db_error, outage, no_rows, constraint, bad_placeholder,
}
use Rows.{find_row, count_rows, select_rows, update_rows, delete_rows}

pub record UserRecord : Type 0 where
  pub name : Text
  pub pass : Text
  pub type : Text
  pub group : Text
  pub attributes : Text
  pub state : ℤ
  pub max_enrollments : ℤ
  pub serial_number : Text
  pub aki : Text

-- `none` is NULL: no statement of the program writes a prekey.
pub record GroupRecord : Type 0 where
  pub name : Text
  pub parent_id : Text
  pub prekey : Option Text

pub record CertRecord : Type 0 where
  pub id : Text
  pub serial : Text
  pub aki : Text
  pub ca_label : Text
  pub status : Text
  pub reason : ℤ
  pub expiry : ℕ
  pub revoked_at : ℕ
  pub pem : Text

pub record Tables : Type 0 where
  pub users : List UserRecord
  pub groups : List GroupRecord
  pub certificates : List CertRecord

pub data Driver : Type 0 where
  sqlite3 postgres mysql : Driver

abbrev pub is_postgres : Driver → Bool
is_postgres postgres = true
is_postgres _ = false

-- only the MySQL schema declares PRIMARY KEY (id) on users
abbrev pub users_keyed : Driver → Bool
users_keyed mysql = true
users_keyed _ = false

pub record Db : Type 0 where
  pub driver : Driver
  -- whether the engine fails at its n-th statement, and the time it reads there
  pub down : ℕ → Bool
  pub time : ℕ → ℕ
  -- whether RowsAffected leaves out the rows that an UPDATE did not change
  pub counts_changed : Bool
  pub clock : ℕ
  pub tables : Tables
  pub open tables use *

pub data Statement : Type 0 where
  insert_user_row : UserRecord → Statement
  delete_user_rows : Text → Statement
  update_user_rows : UserRecord → Statement
  set_max_enrollments : ℤ → Text → Statement
  set_state : ℤ → Text → Statement
  insert_group_row : Text → Text → Statement
  delete_group_rows : Text → Statement
  insert_cert_row : CertRecord → Statement
  revoke_cert_rows : ℤ → Text → Statement

abbrev pub user_is : Text → UserRecord → Bool
user_is id r = text_eq r.name id

abbrev pub group_is : Text → GroupRecord → Bool
group_is name g = text_eq g.name name

abbrev pub revoked : Text
revoked = codes "revoked"

-- WHERE (id = :id AND status != 'revoked')
abbrev pub unrevoked_of : Text → CertRecord → Bool
unrevoked_of id c = text_eq c.id id && not (text_eq c.status revoked)

abbrev pub cert_is : Text → Text → CertRecord → Bool
cert_is serial aki c = text_eq c.serial serial && text_eq c.aki aki

-- the SET clause of updateUser
abbrev pub set_user : UserRecord → UserRecord → UserRecord
set_user u r = record r { pass = u.pass; type = u.type; group = u.group; attributes = u.attributes }

abbrev pub with_state : ℤ → UserRecord → UserRecord
with_state n r = record r { state = n }

abbrev pub with_max : ℤ → UserRecord → UserRecord
with_max n r = record r { max_enrollments = n }

abbrev pub revoke_row : ℤ → ℕ → CertRecord → CertRecord
revoke_row reason now c = record c { status = revoked; revoked_at = now; reason = reason }

unfoldable pub effect : ℕ → Statement → Tables → Tables
effect now (insert_user_row r) t = record t { users = t.users ++ r ∷ [] }
effect now (delete_user_rows id) t = record t { users = delete_rows (user_is id) t.users }
effect now (update_user_rows u) t = record t {
  users = update_rows (user_is u.name) (set_user u) t.users;
}
effect now (set_max_enrollments n id) t = record t {
  users = update_rows (user_is id) (with_max n) t.users;
}
effect now (set_state n id) t = record t { users = update_rows (user_is id) (with_state n) t.users }
effect now (insert_group_row name parent) t = record t {
  groups = t.groups ++ record { name = name; parent_id = parent; prekey = none } ∷ [];
}
effect now (delete_group_rows name) t = record t { groups = delete_rows (group_is name) t.groups }
effect now (insert_cert_row c) t = record t { certificates = t.certificates ++ c ∷ [] }
effect now (revoke_cert_rows reason id) t = record t {
  certificates = update_rows (unrevoked_of id) (revoke_row reason now) t.certificates;
}

abbrev pub eq_ℤ : ℤ → ℤ → Bool
eq_ℤ a b = leb_ℤ a b && leb_ℤ b a

abbrev pub same_user : UserRecord → UserRecord → Bool
same_user u r =
    text_eq r.pass u.pass
    && text_eq r.type u.type
    && text_eq r.group u.group
    && text_eq r.attributes u.attributes

-- the rows that RowsAffected counts
unfoldable pub affected : Bool → Statement → Tables → ℕ
affected changed (insert_user_row r) t = 1
affected changed (delete_user_rows id) t = count_rows (user_is id) t.users
affected changed (update_user_rows u) t =
    count_rows (λ r. user_is u.name r && not (changed && same_user u r)) t.users
affected changed (set_max_enrollments n id) t =
    count_rows (λ r. user_is id r && not (changed && eq_ℤ r.max_enrollments n)) t.users
affected changed (set_state n id) t =
    count_rows (λ r. user_is id r && not (changed && eq_ℤ r.state n)) t.users
affected changed (insert_group_row name parent) t = 1
affected changed (delete_group_rows name) t = count_rows (group_is name) t.groups
affected changed (insert_cert_row c) t = 1
affected changed (revoke_cert_rows reason id) t = count_rows (unrevoked_of id) t.certificates

abbrev pub is_some {ℓ} : {A : Type ℓ} → Option A → Bool
is_some none = false
is_some (some a) = true

-- the primary keys of the schema
unfoldable pub violates : Driver → Statement → Tables → Bool
violates d (insert_user_row r) t = users_keyed d && is_some (find_row (user_is r.name) t.users)
violates d (insert_cert_row c) t = is_some (find_row (cert_is c.serial c.aki) t.certificates)
violates d _ t = false

-- db.Exec and db.NamedExec, with RowsAffected. `bound` says that the `?` of the text were replaced by
-- the driver's own placeholders (Rebind, NamedExec); Postgres rejects a text that still has them.
unfoldable pub exec : Bool → Statement → Method Db ℕ
exec bound st db =
    let next = record db { clock = db.clock + 1 } in
    if db.down db.clock
    then (err (db_error outage), next)
    else if is_postgres db.driver && not bound
    then (err (db_error bad_placeholder), next)
    else if violates db.driver st db.tables
    then (err (db_error constraint), next)
    else (
      ok (affected db.counts_changed st db.tables),
      record next { tables = effect (db.time db.clock) st db.tables },
    )

-- db.Get and db.Select of a rebound text
unfoldable pub query : {A : Type 0} → (Tables → Result A) → Method Db A
query read db =
    let next = record db { clock = db.clock + 1 } in
    if db.down db.clock then (err (db_error outage), next) else (read db.tables, next)

abbrev pub first_row : {A : Type 0} → Option A → Result A
first_row none = err (db_error no_rows)
first_row (some a) = ok a

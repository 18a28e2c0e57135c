-- ===== src/Accessor.antt =====
-- cli/server/dbaccessor.go: the user registry on a database. Each method is an action on the handle;
-- `with_db` is checkDB, which refuses a handle that SetDB never set. JSON encoding of attributes is
-- Go's, given as a parameter.
pub mod Login
pub mod History
pub mod Users
pub mod Enrollment
use copfvtci.Prelude.{
  ℕ, ◌+◌, Bool, true, false, not, ◌||◌, Option, none, some, List, [], ◌∷◌, Text, text_eq,
  if◌then◌else◌, ◌==◌,
}
use copfvtci.Prelude.Int.{ℤ, pos, leb_ℤ, is_zero_ℤ, suc_ℤ}
use copfvtci.Strings.SplitJoin.{split}
use copfvtci.Errors.{
  Error, Result, ok, err, Method, ◌>>=◌, ◌>>◌, pure, raise, require, cop_error, db_error,
  unknown_db, no_rows, null_value, authorization_failure, user_store_error, database_error,
  max_enrollments_reached, state_not_updated, not_yet_implemented,
}
use copfvtci.Spi.{Attribute, UserInfo, GroupInfo, User, UserRegistry}
use copfvtci.Db.{
  Db, Tables, UserRecord, GroupRecord, Statement, insert_user_row, delete_user_rows,
  update_user_rows, set_max_enrollments, set_state, insert_group_row, delete_group_rows, exec,
  query, first_row, user_is, group_is,
}
use copfvtci.Db.Rows.{find_row}

-- encoding/json on a []idp.Attribute
pub record Json : Type 0 where
  pub marshal : List Attribute → Text
  pub unmarshal : Text → Option (List Attribute)

-- Accessor: `none` is the nil handle of NewDBAccessor.
abbrev pub Accessor : Type 0
Accessor = Option Db

abbrev pub new_db_accessor : Accessor
new_db_accessor = none

abbrev pub set_db : Db → Accessor → Accessor
set_db db d = some db

abbrev relift : {A : Type 0} → Result A × Db → Result A × Accessor
relift (r, db) = (r, some db)

-- checkDB, and then the body
unfoldable pub with_db : {A : Type 0} → Method Db A → Method Accessor A
with_db body none = (err unknown_db, none)
with_db body (some db) = relift (body db)

-- The constants serialNumber, aki, prekey, maxEnrollments, state.
abbrev pub serial_number_field : ℕ
serial_number_field = 0

abbrev pub aki_field : ℕ
aki_field = 1

abbrev pub prekey_field : ℕ
prekey_field = 2

abbrev pub max_enrollments_field : ℕ
max_enrollments_field = 3

abbrev pub state_field : ℕ
state_field = 4

-- `if numRowsAffected == 0 … if numRowsAffected != 1 …`
abbrev pub one_row : Error → ℕ → Method Db (Unit {0})
one_row e n = if n == 0 then raise e else if n == 1 then pure tt else raise e

-- a Go map from strings to strings: the last write of a key stands first
abbrev pub StrMap : Type 0
StrMap = List (Text × Text)

-- m[key], "" if there is none
unfoldable pub map_get : StrMap → Text → Text
map_get [] key = []
map_get ((k, v) ∷ m) key = if text_eq k key then v else map_get m key

-- `for _, attr := range attrs { m[attr.Name] = attr.Value }`
unfoldable pub attr_map : List Attribute → StrMap → StrMap
attr_map [] m = m
attr_map (a ∷ rest) m = attr_map rest ((a.name, a.value) ∷ m)

pub record DbUser : Type 0 where
  pub name : Text
  pub pass : Text
  pub state : ℤ
  pub max_enrollments : ℤ
  pub affiliation_path : List Text
  pub attrs : StrMap

-- DBUser.Login, on the database that the user was read from
unfoldable pub login : DbUser → Text → Method Db (Unit {0})
login u pass = do
  require (text_eq u.pass pass) (cop_error authorization_failure)
  if leb_ℤ (pos 0) u.max_enrollments
      then (do
        require (is_zero_ℤ u.max_enrollments || not (leb_ℤ u.max_enrollments u.state))
            max_enrollments_reached
        rows ← exec true (set_state (suc_ℤ u.state) u.name)
        one_row state_not_updated rows)
      else pure tt

-- DBUser.GetAttribute
abbrev pub get_attribute : DbUser → Text → Text
get_attribute u key = map_get u.attrs key

-- json.Unmarshal leaves the slice nil if it fails
abbrev or_nil : Option (List Attribute) → List Attribute
or_nil none = []
or_nil (some attrs) = attrs

module _ (json : Json) where
  unfoldable pub new_db_user : UserRecord → DbUser
  new_db_user r = record {
    name = r.name;
    pass = r.pass;
    state = r.state;
    max_enrollments = r.max_enrollments;
    affiliation_path = split r.group b'/';
    attrs = attr_map (or_nil (json.unmarshal r.attributes)) [];
  }

  -- the UserRecord literal of InsertUser and UpdateUser; the fields left out are zero
  abbrev pub user_row : UserInfo → UserRecord
  user_row u = record {
    name = u.name;
    pass = u.pass;
    type = u.type;
    group = u.group;
    attributes = json.marshal u.attributes;
    state = pos 0;
    max_enrollments = pos 0;
    serial_number = [];
    aki = [];
  }

  unfoldable pub insert_user : UserInfo → Method Db (Unit {0})
  insert_user u = do
    rows ← exec true (insert_user_row (user_row u))
    one_row (cop_error user_store_error) rows

  unfoldable pub update_user : UserInfo → Method Db (Unit {0})
  update_user u = do
    rows ← exec true (update_user_rows (user_row u))
    one_row (cop_error user_store_error) rows

  unfoldable pub get_db_user : Text → Method Db DbUser
  get_db_user id = do
    r ← query (λ t. first_row (find_row (user_is id) t.users))
    pure (new_db_user r)

-- d.db.Exec(deleteUser, id): the text is not rebound
unfoldable pub delete_user : Text → Method Db (Unit {0})
delete_user id = do exec false (delete_user_rows id); pure tt

unfoldable pub update_field : Text → ℕ → ℤ → Method Db (Unit {0})
update_field id field value =
    if field == max_enrollments_field
    then (do exec true (set_max_enrollments value id); pure tt)
    else if field == state_field
    then (do exec true (set_state value id); pure tt)
    else raise (cop_error database_error)

-- scanning NULL into a string fails
abbrev scan_prekey : Option GroupRecord → Result Text
scan_prekey none = err (db_error no_rows)
scan_prekey (some g) = elim g.prekey [ none ↦ err (db_error null_value) | some k ↦ ok k ]

unfoldable pub get_field : Text → ℕ → Method Db Text
get_field id field =
    if field == prekey_field
    then query (λ t. scan_prekey (find_row (group_is id) t.groups))
    else raise (cop_error database_error)

unfoldable pub insert_group : Text → Text → Method Db (Unit {0})
insert_group name parent = do exec true (insert_group_row name parent); pure tt

unfoldable pub delete_group : Text → Method Db (Unit {0})
delete_group name = do exec false (delete_group_rows name); pure tt

abbrev group_info : GroupRecord → GroupInfo
group_info g = record { name = g.name; parent_id = g.parent_id }

unfoldable pub get_group : Text → Method Db GroupInfo
get_group name = do
  g ← query (λ t. first_row (find_row (group_is name) t.groups))
  pure (group_info g)

unfoldable pub get_root_group : Method Db GroupInfo
get_root_group = raise not_yet_implemented

-- A DBUser as the SPI's User.
abbrev pub as_user : DbUser → User Accessor
as_user u = record {
  get_name = u.name;
  login = λ pass. with_db (login u pass);
  affiliation_path = u.affiliation_path;
  get_attribute = get_attribute u;
}

module _ (json : Json) where
  -- GetUser returns a User
  unfoldable pub get_user : Text → List Text → Method Accessor (User Accessor)
  get_user id attrs = do u ← with_db (get_db_user json id); pure (as_user u)

  -- Accessor as the SPI's UserRegistry.
  abbrev pub db_registry : UserRegistry Accessor
  db_registry = record {
    get_user = get_user;
    insert_user = λ u. with_db (insert_user json u);
    update_user = λ u. with_db (update_user json u);
    delete_user = λ id. with_db (delete_user id);
    update_field = λ id field value. with_db (update_field id field value);
    get_field = λ id field. with_db (get_field id field);
    get_group = λ name. with_db (get_group name);
    get_root_group = with_db get_root_group;
    insert_group = λ name parent. with_db (insert_group name parent);
    delete_group = λ name. with_db (delete_group name);
  }

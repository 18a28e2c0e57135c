-- ===== src/Accessor/Users.antt =====
-- InsertUser, UpdateUser, DeleteUser, UpdateField and GetUser of cli/server/dbaccessor.go together.
use copfvtci.Prelude.{
  ℕ, ◌+◌, ◌≡◌, ◌≢◌, refl, ◌∙◌, true, false, Option, none, some, List, [], ◌∷◌, ◌++◌, arith, Text,
  text_eq_iff, text_eq_refl,
}
use copfvtci.Prelude.Int.{ℤ, pos}
use copfvtci.Strings.SplitJoin.{split, join, join-split}
use copfvtci.Errors.{ok, err, ◌>>◌, db_error, no_rows, is_ok}
use copfvtci.Spi.{UserInfo}
use copfvtci.Db.{
  Db, UserRecord, user_is, set_user, with_state, with_max, postgres, mysql, exec, effect, violates,
  affected, query,
}
use copfvtci.Db.Rows.{
  find_row, update_rows, find_row-append, find_row-append_other, find_row-update_rows,
  find_row-update_rows_other, find_row-delete_rows, find_row-delete_rows_other,
}
use copfvtci.Accessor.{
  Json, DbUser, attr_map, insert_user, update_user, delete_user, update_field, get_db_user,
  new_db_user, user_row,
}
use copfvtci.Accessor.Enrollment.{get_db_user_up}

-- the user that a registration makes
abbrev pub fresh_user : UserInfo → DbUser
fresh_user u = record {
  name = u.name;
  pass = u.pass;
  state = pos 0;
  max_enrollments = pos 0;
  affiliation_path = split u.group b'/';
  attrs = attr_map u.attributes [];
}

insert_user-row :
    (json : Json) (u : UserInfo) (db : Db)
    → find_row (user_is u.name) db.users ≡ none
    → db.down db.clock ≡ false
    → ((insert_user json u db).0 ≡ ok tt)
      × ((insert_user json u db).1 ≡ record db {
        clock = db.clock + 1;
        tables = record db.tables { users = db.users ++ user_row json u ∷ [] };
      })
unfolding insert_user exec violates affected effect
insert_user-row json u db fresh up = ground arith

pub find-added :
    (json : Json) (u : UserInfo) (xs : List UserRecord)
    → find_row (user_is u.name) xs ≡ none
    → find_row (user_is u.name) (xs ++ user_row json u ∷ []) ≡ some (user_row json u)
unfolding find_row
find-added json u xs fresh =
    find_row-append (user_is u.name) xs (user_row json u ∷ []) fresh ∙ rw (text_eq_refl u.name)

-- What is inserted under a new name is read back: the password, the attributes as they were given, no
-- enrollment counted and no limit set, and an affiliation path that joins to the group.
pub insert_user-get_db_user :
    (json : Json) (u : UserInfo) (db : Db)
    → find_row (user_is u.name) db.users ≡ none
    → db.down db.clock ≡ false
    → db.down (db.clock + 1) ≡ false
    → json.unmarshal (json.marshal u.attributes) ≡ some u.attributes
    → ((do insert_user json u; get_db_user json u.name) db).0 ≡ ok (fresh_user u)
unfolding new_db_user
insert_user-get_db_user json u db fresh up up' decodes =
    let (done, next) = insert_user-row json u db fresh up in
    rw (done, next)
      (rw
        (get_db_user_up json u.name (user_row json u)
          (record db {
            clock = db.clock + 1;
            tables = record db.tables { users = db.users ++ user_row json u ∷ [] };
          })
          up' (find-added json u db.users fresh))
        (rw decodes))

pub affiliation_joins : (u : UserInfo) → join (fresh_user u).affiliation_path b'/' ≡ u.group
affiliation_joins u = join-split u.group b'/'

-- On MySQL, whose users table has the id for its key, a name that is taken is refused, and no row
-- changes.
pub insert_user_taken :
    (json : Json) (u : UserInfo) (r : UserRecord) (db : Db)
    → db.driver ≡ mysql
    → find_row (user_is u.name) db.users ≡ some r
    → (is_ok (insert_user json u db).0 ≡ false) × ((insert_user json u db).1.tables ≡ db.tables)
unfolding insert_user exec violates
insert_user_taken json u r db keyed taken = rw (keyed, taken) (ground arith)

update_user-tables :
    (json : Json) (u : UserInfo) (db : Db)
    → db.down db.clock ≡ false
    → (update_user json u db).1 ≡ record db {
      clock = db.clock + 1;
      tables = record db.tables {
        users = update_rows (user_is u.name) (set_user (user_row json u)) db.users;
      };
    }
unfolding update_user exec violates affected effect
update_user-tables json u db up = ground arith

-- An update is read back with its password, group and attributes, and leaves the user's enrollment
-- count and limit as they were.
pub update_user-get_db_user :
    (json : Json) (u : UserInfo) (r : UserRecord) (db : Db)
    → find_row (user_is u.name) db.users ≡ some r
    → db.down db.clock ≡ false
    → db.down (db.clock + 1) ≡ false
    → json.unmarshal (json.marshal u.attributes) ≡ some u.attributes
    → (get_db_user json u.name (update_user json u db).1).0
      ≡ ok (record (fresh_user u) {
        name = r.name;
        state = r.state;
        max_enrollments = r.max_enrollments;
      })
unfolding new_db_user
update_user-get_db_user json u r db found up up' decodes = rw (update_user-tables json u db up) (
    rw
      (get_db_user_up json u.name (set_user (user_row json u) r)
        (record db {
          clock = db.clock + 1;
          tables = record db.tables {
            users = update_rows (user_is u.name) (set_user (user_row json u)) db.users;
          };
        })
        up'
        (find_row-update_rows (user_is u.name) (set_user (user_row json u)) (λ x. refl) db.users r
          found))
      (rw decodes))

-- A deleted user is gone, on a driver that takes `?` for a placeholder and an engine that answers.
pub delete_user-get_db_user :
    (json : Json) (id : Text) (db : Db)
    → db.driver ≢ postgres
    → db.down db.clock ≡ false
    → db.down (db.clock + 1) ≡ false
    → ((delete_user id db).0 ≡ ok tt)
      × ((get_db_user json id (delete_user id db).1).0 ≡ err (db_error no_rows))
unfolding delete_user get_db_user query exec violates effect
delete_user-get_db_user json id db other up up' =
    ground (arith, find_row-delete_rows (user_is id) db.users)

-- On Postgres DeleteUser fails and deletes nothing, whoever is named: its text is not rebound.
pub delete_user_postgres :
    (id : Text) (db : Db)
    → db.driver ≡ postgres
    → (is_ok (delete_user id db).0 ≡ false) × ((delete_user id db).1.tables ≡ db.tables)
unfolding delete_user exec
delete_user_postgres id db pg = ground arith

apart :
    (id other : Text)
    → id ≢ other
    → (x : UserRecord) → user_is id x ≡ true
    → user_is other x ≡ false
apart id other ne x h = ground (arith, text_eq_iff x.name id, text_eq_iff x.name other)

-- the user that a write names
abbrev pub row_of : Text → Db → Option UserRecord
row_of id db = find_row (user_is id) db.users

module _ (other : Text) (db : Db) where
  frame_insert :
      (json : Json) (u : UserInfo)
      → u.name ≢ other
      → row_of other (insert_user json u db).1 ≡ row_of other db
  unfolding insert_user exec effect
  frame_insert json u ne = ground (
    arith,
    find_row-append_other (user_is other) db.users (user_row json u),
    text_eq_iff u.name other,
  )

  frame_update :
      (json : Json) (u : UserInfo)
      → u.name ≢ other
      → row_of other (update_user json u db).1 ≡ row_of other db
  unfolding update_user exec effect
  frame_update json u ne = ground (
    arith,
    find_row-update_rows_other (user_is other) (user_is u.name) (set_user (user_row json u))
        (apart u.name other ne) (λ x. refl) db.users,
  )

  frame_delete : (id : Text) → id ≢ other → row_of other (delete_user id db).1 ≡ row_of other db
  unfolding delete_user exec effect
  frame_delete id ne =
      ground (
        arith,
        find_row-delete_rows_other (user_is other) (user_is id) (apart id other ne) db.users,
      )

  frame_field :
      (id : Text) (field : ℕ) (value : ℤ)
      → id ≢ other
      → row_of other (update_field id field value db).1 ≡ row_of other db
  unfolding update_field exec effect
  frame_field id field value ne = ground (
    arith,
    find_row-update_rows_other (user_is other) (user_is id) (with_state value) (apart id other ne)
        (λ x. refl) db.users,
    find_row-update_rows_other (user_is other) (user_is id) (with_max value) (apart id other ne)
        (λ x. refl) db.users,
  )

-- Inserting, updating, deleting one user or a field of it leaves every other user's row as it was,
-- whether the write succeeds or fails.
pub write_frame :
    (json : Json) (u : UserInfo) (other : Text) (field : ℕ) (value : ℤ) (db : Db)
    → u.name ≢ other
    → (row_of other (insert_user json u db).1 ≡ row_of other db)
      × (row_of other (update_user json u db).1 ≡ row_of other db)
      × (row_of other (delete_user u.name db).1 ≡ row_of other db)
      × (row_of other (update_field u.name field value db).1 ≡ row_of other db)
write_frame json u other field value db ne = (
  frame_insert other db json u ne,
  frame_update other db json u ne,
  frame_delete other db u.name ne,
  frame_field other db u.name field value ne,
)

-- ===== src/Accessor/History.antt =====
-- Histories of calls of the methods of cli/server/dbaccessor.go, and the prekeys of groups.
use copfvtci.Prelude.{
  ℕ, ◌≡◌, refl, Bool, false, none, some, List, [], ◌∷◌, ◌++◌, arith, Text, All, All-append, ◌⊎◌,
  inl, inr, Option-cases,
}
use copfvtci.Prelude.Int.{ℤ, pos}
use copfvtci.Errors.{is_ok}
use copfvtci.Spi.{UserInfo}
use copfvtci.Db.{Db, GroupRecord, group_is, exec, effect, query}
use copfvtci.Db.Rows.{find_row, delete_rows}
use copfvtci.Accessor.{
  Json, insert_user, update_user, delete_user, update_field, get_field, get_db_user, get_group,
  insert_group, delete_group, login,
}
use copfvtci.Accessor.Login.{sign_in}

-- A call of the accessor, by anybody.
pub data Call : Type 0 where
  inserts updates : UserInfo → Call
  deletes reads : Text → Call
  sets : Text → ℕ → ℤ → Call
  signs_in : Text → Text → Call
  inserts_group : Text → Text → Call
  deletes_group reads_group : Text → Call

pub step : Json → Call → Db → Db
step json (inserts u) db = (insert_user json u db).1
step json (updates u) db = (update_user json u db).1
step json (deletes id) db = (delete_user id db).1
step json (reads id) db = (get_db_user json id db).1
step json (sets id field value) db = (update_field id field value db).1
step json (signs_in id pass) db = (sign_in json id pass db).1
step json (inserts_group name parent) db = (insert_group name parent db).1
step json (deletes_group name) db = (delete_group name db).1
step json (reads_group name) db = (get_group name db).1

pub run : Json → List Call → Db → Db
run json [] db = db
run json (c ∷ cs) db = run json cs (step json c db)

-- No group has a prekey, as in the tables that dbutil creates.
abbrev pub NoPrekeys : List GroupRecord → Type 0
NoPrekeys = All (λ g. g.prekey ≡ none)

delete_rows-NoPrekeys :
    (p : GroupRecord → Bool) (gs : List GroupRecord) → NoPrekeys gs → NoPrekeys (delete_rows p gs)
unfolding delete_rows
delete_rows-NoPrekeys p [] h = h
delete_rows-NoPrekeys p (g ∷ gs) (hg, hgs) = ground (arith, delete_rows-NoPrekeys p gs hgs)

keeps_inserts :
    (json : Json) (u : UserInfo) (db : Db)
    → ((insert_user json u db).1.groups ≡ db.groups)
      × ((update_user json u db).1.groups ≡ db.groups)
unfolding insert_user update_user exec effect
keeps_inserts json u db = (ground arith, ground arith)

keeps_deletes :
    (id : Text) (field : ℕ) (value : ℤ) (db : Db)
    → ((delete_user id db).1.groups ≡ db.groups)
      × ((update_field id field value db).1.groups ≡ db.groups)
unfolding delete_user update_field exec effect
keeps_deletes id field value db = (ground arith, ground arith)

keeps_reads :
    (json : Json) (id pass : Text) (db : Db)
    → ((get_db_user json id db).1.groups ≡ db.groups)
      × ((get_group id db).1.groups ≡ db.groups)
      × ((sign_in json id pass db).1.groups ≡ db.groups)
unfolding get_db_user get_group sign_in login exec effect query
keeps_reads json id pass db = (ground arith, ground arith, ground arith)

group_calls-cases :
    (name parent : Text) (db : Db)
    → (((insert_group name parent db).1.groups ≡ db.groups)
        ⊎ ((insert_group name parent db).1.groups
            ≡ db.groups ++ record { name = name; parent_id = parent; prekey = none } ∷ []))
      × (((delete_group name db).1.groups ≡ db.groups)
          ⊎ ((delete_group name db).1.groups ≡ delete_rows (group_is name) db.groups))
unfolding insert_group delete_group exec effect
group_calls-cases name parent db = (ground arith, ground arith)

insert_group-NoPrekeys :
    (name parent : Text) (db : Db)
    → NoPrekeys db.groups
    → NoPrekeys (insert_group name parent db).1.groups
insert_group-NoPrekeys name parent db h = elim (group_calls-cases name parent db).0 [
  | inl e ↦ rw e h
  | inr e ↦ rw e (All-append _ db.groups _ h (refl, tt))
]

delete_group-NoPrekeys :
    (name : Text) (db : Db) → NoPrekeys db.groups → NoPrekeys (delete_group name db).1.groups
delete_group-NoPrekeys name db h = elim (group_calls-cases name [] db).1 [
  | inl e ↦ rw e h
  | inr e ↦ rw e (delete_rows-NoPrekeys (group_is name) db.groups h)
]

step-NoPrekeys :
    (json : Json) (c : Call) (db : Db) → NoPrekeys db.groups → NoPrekeys (step json c db).groups
unfolding step
step-NoPrekeys json (inserts u) db h = rw (keeps_inserts json u db).0 h
step-NoPrekeys json (updates u) db h = rw (keeps_inserts json u db).1 h
step-NoPrekeys json (deletes id) db h = rw (keeps_deletes id 0 (pos 0) db).0 h
step-NoPrekeys json (reads id) db h = rw (keeps_reads json id [] db).0 h
step-NoPrekeys json (sets id field value) db h = rw (keeps_deletes id field value db).1 h
step-NoPrekeys json (signs_in id pass) db h = rw (keeps_reads json id pass db).2 h
step-NoPrekeys json (inserts_group name parent) db h = insert_group-NoPrekeys name parent db h
step-NoPrekeys json (deletes_group name) db h = delete_group-NoPrekeys name db h
step-NoPrekeys json (reads_group name) db h = rw (keeps_reads json name [] db).1 h

run-NoPrekeys :
    (json : Json) (cs : List Call) (db : Db)
    → NoPrekeys db.groups
    → NoPrekeys (run json cs db).groups
unfolding run
run-NoPrekeys json [] db h = h
run-NoPrekeys json (c ∷ cs) db h =
    run-NoPrekeys json cs (step json c db) (step-NoPrekeys json c db h)

find-NoPrekeys :
    (p : GroupRecord → Bool) (gs : List GroupRecord) (g : GroupRecord)
    → NoPrekeys gs
    → find_row p gs ≡ some g
    → g.prekey ≡ none
unfolding find_row
find-NoPrekeys p [] g h e = ground arith
find-NoPrekeys p (x ∷ gs) g (hx, hgs) e = ground (arith, find-NoPrekeys p gs g hgs)

get_field-fails :
    (id : Text) (field : ℕ) (db : Db)
    → NoPrekeys db.groups
    → is_ok (get_field id field db).0 ≡ false
unfolding get_field query
get_field-fails id field db h = elim (Option-cases (find_row (group_is id) db.groups)) [
  | inl e ↦ ground arith
  | inr (g, e) ↦ ground (arith, find-NoPrekeys (group_is id) db.groups g h e)
]

-- From tables with no prekey, and whatever calls are made in whatever order, GetField never succeeds,
-- for any field of any group.
pub run-get_field :
    (json : Json) (cs : List Call) (db : Db) (id : Text) (field : ℕ)
    → NoPrekeys db.groups
    → is_ok (get_field id field (run json cs db)).0 ≡ false
run-get_field json cs db id field h =
    get_field-fails id field (run json cs db) (run-NoPrekeys json cs db h)

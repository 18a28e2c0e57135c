-- ===== src/Bootstrap/Groups.antt =====
-- PopulateGroupsTable of cli/server/bootstrap.go on the registry of cli/server/dbaccessor.go.
use copfvtci.Prelude.{
  ℕ, zero, suc, ◌+◌, ◌≤◌, ◌≡◌, refl, ◌∙◌, inl, inr, none, some, List, [], ◌∷◌, ◌++◌, Text, text_eq,
  text_eq_refl, text_eq_iff, Bool-cases, All, arith, Option-cases, codes,
}
use copfvtci.Errors.{Method, ok}
use copfvtci.Db.{Db, GroupRecord, group_is, exec, query, effect, affected, violates}
use copfvtci.Db.Rows.{
  find_row, count_rows, find_row-append, find_row-append_some, count_rows-append,
  count_rows-find_row-none,
}
use copfvtci.Accessor.{Json, Accessor, db_registry, with_db, get_group, insert_group}
use copfvtci.Accessor.Enrollment.{Up}
use copfvtci.Bootstrap.{
  Config, register_group, attempt, register_groups, for_each, populate_group, populate_groups_table,
}

abbrev pub Present : Text → Db → Type 0
Present name db = (g : GroupRecord) × (find_row (group_is name) db.groups ≡ some g)

-- no two groups have one name
abbrev pub Distinct : Db → Type 0
Distinct db = (n : Text) → count_rows (group_is n) db.groups ≤ 1

-- a later database: the engine still answers, the users are the same, every group is as it was
pub record Extends (old new : Db) : Type 0 where
  pub up : Up old → Up new
  pub users : new.users ≡ old.users
  pub keeps :
      (n : Text) (g : GroupRecord)
      → find_row (group_is n) old.groups ≡ some g
      → find_row (group_is n) new.groups ≡ some g
  pub distinct : Distinct old → Distinct new

abbrev new_group : Text → Text → GroupRecord
new_group name parent = record { name = name; parent_id = parent; prekey = none }

-- the database behind a look at the groups, and behind the insertion of one
abbrev looked : Db → Db
looked db = record db { clock = db.clock + 1 }

abbrev added : Text → Text → Db → Db
added name parent db = record db {
  clock = db.clock + 1 + 1;
  tables = record db.tables { groups = db.groups ++ new_group name parent ∷ [] };
}

Extends-refl : (db : Db) → Extends db db
Extends-refl db = record { up = λ h. h; users = refl; keeps = λ n g h. h; distinct = λ h. h }

looked-Extends : (db : Db) → Extends db (looked db)
looked-Extends db = record { up = λ h. h; users = refl; keeps = λ n g h. h; distinct = λ h. h }

Extends-trans : (a b c : Db) → Extends a b → Extends b c → Extends a c
Extends-trans a b c p q = record {
  up = λ h. q.up (p.up h);
  users = q.users ∙ p.users;
  keeps = λ n g h. q.keeps n g (p.keeps n g h);
  distinct = λ h. q.distinct (p.distinct h);
}

Present-Extends : (name : Text) (a b : Db) → Extends a b → Present name a → Present name b
Present-Extends name a b e (g, found) = (g, e.keeps name g found)

added_distinct :
    (name parent n : Text) (db : Db)
    → find_row (group_is name) db.groups ≡ none
    → count_rows (group_is n) db.groups ≤ 1
    → count_rows (group_is n) (added name parent db).groups ≤ 1
unfolding count_rows
added_distinct name parent n db fresh h =
    let total = count_rows-append (group_is n) db.groups (new_group name parent ∷ []) in
    elim (Bool-cases (text_eq name n)) [
      | inl e ↦
          let none_yet =
            count_rows-find_row-none (group_is n) db.groups
              (rw ((text_eq_iff name n).0 e) at fresh) in
          rw total (rw e (omega arith))
      | inr e ↦ rw total (rw e (omega arith))
    ]

added-Extends :
    (name parent : Text) (db : Db)
    → find_row (group_is name) db.groups ≡ none
    → Extends db (added name parent db)
added-Extends name parent db fresh = record {
  up = λ h. h;
  users = refl;
  keeps = λ n g h. find_row-append_some (group_is n) db.groups (new_group name parent ∷ []) g h;
  distinct = λ h n. added_distinct name parent n db fresh (h n);
}

-- the state that a method leaves, and what holds of it
abbrev Reaches : Method Accessor (Unit {0}) → Db → (Db → Type 0) → Type 0
Reaches m db P = (db' : Db) × (m (some db) ≡ (ok tt, some db')) × Extends db db' × P db'

module _ (json : Json) where
  attempt-Reaches :
      (name parent : Text) (db : Db)
      → Up db
      → Reaches
          (attempt (db_registry json) (register_group (db_registry json) name parent))
          db
          (Present name)
  unfolding attempt register_group with_db get_group insert_group query exec effect affected
      violates
  attempt-Reaches name parent db up = elim (Option-cases (find_row (group_is name) db.groups)) [
    | inr (g, e) ↦ (looked db, ground (arith, up db.clock), looked-Extends db, (g, e))
    | inl e ↦ (
      added name parent db,
      ground (arith, up db.clock, up (db.clock + 1)),
      added-Extends name parent db e,
      (
        new_group name parent,
        find_row-append (group_is name) db.groups (new_group name parent ∷ []) e
            ∙ unfold find_row in rw (text_eq_refl name),
      ),
    )
  ]

  register_groups-Reaches :
      (names : List Text) (parent : Text) (db : Db)
      → Up db
      → Reaches
          (register_groups (db_registry json) names parent)
          db
          (λ d. All (λ n. Present n d) names)
  unfolding register_groups
  register_groups-Reaches [] parent db up = (db, refl, Extends-refl db, tt)
  register_groups-Reaches (n ∷ names) parent db up =
      let (mid, first, grown, here) = attempt-Reaches n parent db up in
      let (last, rest, grown', all) = register_groups-Reaches names parent mid (grown.up up) in
      (
        last,
        rw (first, rest),
        Extends-trans db mid last grown grown',
        (Present-Extends n mid last grown' here, all),
      )

  -- each of a list of names, by a body that reaches `P` of its name, where later databases keep `P`
  for_each-Reaches :
      (body : Text → Method Accessor (Unit {0})) (P : Text → Db → Type 0)
      → ((n : Text) (a b : Db) → Extends a b → P n a → P n b)
      → ((n : Text) (db : Db) → Up db → Reaches (body n) db (P n))
      → (names : List Text) (db : Db) → Up db
      → Reaches (for_each (db_registry json) body names) db (λ d. All (λ n. P n d) names)
  unfolding for_each
  for_each-Reaches body P later each [] db up = (db, refl, Extends-refl db, tt)
  for_each-Reaches body P later each (n ∷ names) db up =
      let (mid, first, grown, here) = each n db up in
      let (last, rest, grown', all) = for_each-Reaches body P later each names mid (grown.up up) in
      (
        last,
        rw (first, rest),
        Extends-trans db mid last grown grown',
        (later n mid last grown' here, all),
      )

module _ (cfg : Config) where
  -- the group of a key of the configuration, and all those below it, are in the table
  unfoldable pub Loaded : ℕ → Text → Text → Db → Type 0
  Loaded zero key name db =
      Present name db × All (λ n. Present n db) (cfg.string_slice (key ++ b'.' ∷ name))
  Loaded (suc level) key name db =
      Present name db
      × All (λ child. Loaded level (key ++ b'.' ∷ name) child db)
          (cfg.map_keys (key ++ b'.' ∷ name))

  All-later :
      (P : Text → Db → Type 0) (a b : Db)
      → ((n : Text) → P n a → P n b)
      → (names : List Text) → All (λ n. P n a) names
      → All (λ n. P n b) names
  All-later P a b f [] h = tt
  All-later P a b f (n ∷ names) (h, hs) = (f n h, All-later P a b f names hs)

  Loaded-Extends :
      (level : ℕ) (key name : Text) (a b : Db)
      → Extends a b
      → Loaded level key name a
      → Loaded level key name b
  unfolding Loaded
  Loaded-Extends zero key name a b e (here, leaves) = (
    Present-Extends name a b e here,
    All-later Present a b (λ n. Present-Extends n a b e) (cfg.string_slice (key ++ b'.' ∷ name))
        leaves,
  )
  Loaded-Extends (suc level) key name a b e (here, below) = (
    Present-Extends name a b e here,
    All-later (Loaded level (key ++ b'.' ∷ name)) a b
        (λ n. Loaded-Extends level (key ++ b'.' ∷ name) n a b e) (cfg.map_keys (key ++ b'.' ∷ name))
        below,
  )

  populate_group-Reaches :
      (json : Json) (level : ℕ) (name parent key : Text) (db : Db)
      → Up db
      → Reaches
          (populate_group (db_registry json) cfg level name parent key)
          db
          (Loaded level key name)
  unfolding populate_group Loaded
  populate_group-Reaches json zero name parent key db up =
      let (mid, first, grown, here) = attempt-Reaches json name parent db up in
      let (last, rest, grown', all) =
        register_groups-Reaches json (cfg.string_slice (key ++ b'.' ∷ name)) name mid
          (grown.up up) in
      (
        last,
        rw (first, rest),
        Extends-trans db mid last grown grown',
        (Present-Extends name mid last grown' here, all),
      )
  populate_group-Reaches json (suc level) name parent key db up =
      let below = key ++ b'.' ∷ name in
      let (mid, first, grown, here) = attempt-Reaches json name parent db up in
      let (last, rest, grown', all) =
        for_each-Reaches json
          (λ child. populate_group (db_registry json) cfg level child name below)
          (Loaded level below) (λ n. Loaded-Extends level below n)
          (λ n d u. populate_group-Reaches json level n name below d u) (cfg.map_keys below) mid
          (grown.up up) in
      (
        last,
        rw (first, rest),
        Extends-trans db mid last grown grown',
        (Present-Extends name mid last grown' here, all),
      )

  -- On an engine that answers, PopulateGroupsTable succeeds, and then every group that the configuration
  -- names, on its two levels and the leaves below them, is in the table. The groups that were there
  -- before are as they were, no name is there twice if none was before, and the users are untouched.
  pub populate_groups_table_lem :
      (json : Json) (db : Db)
      → Up db
      → (db' : Db) × (populate_groups_table (db_registry json) cfg (some db) ≡ (ok tt, some db'))
        × Extends db db'
        × All (λ name. Loaded 1 (codes "groups") name db') (cfg.map_keys (codes "groups"))
  unfolding populate_groups_table
  populate_groups_table_lem json db up =
      for_each-Reaches json
        (λ name. populate_group (db_registry json) cfg 1 name [] (codes "groups"))
        (Loaded 1 (codes "groups")) (λ n. Loaded-Extends 1 (codes "groups") n)
        (λ n d u. populate_group-Reaches json 1 n [] (codes "groups") d u)
        (cfg.map_keys (codes "groups")) db up

-- ===== src/Bootstrap/Users.antt =====
-- PopulateUsersTable of cli/server/bootstrap.go on the registry of cli/server/dbaccessor.go.
use copfvtci.Prelude.{
  ℕ, ◌+◌, ◌≡◌, refl, sym, ◌∙◌, inl, inr, ◌⊎◌, Bool, true, false, not, ◌||◌, Option, none, some,
  List, [], ◌∷◌, ◌++◌, Text, text_eq, text_eq_refl, text_eq_iff, Bool-cases, Option-cases, All,
  if◌then◌else◌,
}
use copfvtci.Prelude.Int.{ℤ}
use copfvtci.Errors.{Error, db_error, no_rows, Method, ok, err}
use copfvtci.Db.{Db, UserRecord, user_is, group_is, with_max, is_some, query}
use copfvtci.Db.Rows.{find_row, find_row-update_rows_other, find_row-append_other}
use copfvtci.Accessor.{Json, Accessor, db_registry, with_db, get_group, user_row}
use copfvtci.Accessor.Enrollment.{Up}
use copfvtci.Register.{register_user, validate_id, require_group, token_of}
use copfvtci.Register.OnDb.{
  new_info, registered, registration-fresh, find-registered, registration_taken,
}
use copfvtci.Bootstrap.{ConfigUser, attempt, populate_users_table}

abbrev at_clock : ℕ → Db → Db
at_clock c db = record db { clock = c }

text_eq-false : (a b : Text) → text_eq a b ≡ false → text_eq b a ≡ false
text_eq-false a b h = elim (Bool-cases (text_eq b a)) [
  | inr e ↦ e
  | inl e ↦ absurd (cc (sym (rw ((text_eq_iff b a).0 e) at h), text_eq_refl a))
]

-- the type of a user needs no group, or the group is in the table
abbrev pub valid_user : ConfigUser → Db → Bool
valid_user u db = not (require_group u.type) || is_some (find_row (group_is u.group) db.groups)

-- no user of the list bears the name
abbrev pub Apart : Text → List ConfigUser → Type 0
Apart n users = All (λ (v : ConfigUser). text_eq v.name n ≡ false) users

abbrev pub DistinctNames : List ConfigUser → Type 0
DistinctNames [] = Unit {0}
DistinctNames (u ∷ users) = Apart u.name users × DistinctNames users

abbrev kept_or : Option UserRecord → Bool → UserRecord → Option UserRecord
kept_or (some r) valid fresh = some r
kept_or none valid fresh = if valid then some fresh else none

kept_or-false : (o : Option UserRecord) (r : UserRecord) → o ≡ kept_or o false r
kept_or-false none r = refl
kept_or-false (some a) r = refl

module _ (json : Json) (max : ℤ) (max_text random : Text) where
  abbrev options : ConfigUser → List Text
  options u = u.pass ∷ max_text ∷ []

  -- the row that a new user gets: the configured password, or the random text if it is empty
  abbrev pub configured : ConfigUser → UserRecord
  configured u =
      with_max max
        (user_row json (new_info u.name (token_of (options u) random) u.type u.group u.attributes))

  -- what the table holds of a user afterwards: the row that was there, or a new one if the user is valid
  unfoldable pub stored : ConfigUser → Db → Option UserRecord
  stored u db = kept_or (find_row (user_is u.name) db.users) (valid_user u db) (configured u)

  abbrev enter : ConfigUser → Method Accessor Text
  enter u =
      register_user (db_registry json) max random u.name u.type u.group u.attributes [] (options u)

  validated :
      (u : ConfigUser) (db : Db)
      → Up db
      → (c : ℕ) × (((valid_user u db ≡ true)
            × (validate_id (db_registry json) u.type u.group (some db)
                ≡ (ok tt, some (at_clock c db))))
          ⊎ ((valid_user u db ≡ false)
              × ((e : Error) × (validate_id (db_registry json) u.type u.group (some db)
                    ≡ (err e, some (at_clock c db))))))
  unfolding validate_id with_db get_group query
  validated u db up = elim (Bool-cases (require_group u.type)) [
    | inr e ↦ (db.clock, inl (rw e (refl, refl)))
    | inl e ↦ elim (Option-cases (find_row (group_is u.group) db.groups)) [
      | inl f ↦
          (db.clock + 1, inr (rw (e, f) refl, (db_error no_rows, rw (e, f, up db.clock) refl)))
      | inr (g, f) ↦ (db.clock + 1, inl (rw (e, f) refl, rw (e, f, up db.clock) refl))
    ]
  ]

  record Added (u : ConfigUser) (db new : Db) : Type 0 where
    up : Up new
    groups : new.groups ≡ db.groups
    here : find_row (user_is u.name) new.users ≡ stored u db
    others :
        (n : Text)
        → text_eq u.name n ≡ false
        → find_row (user_is n) new.users ≡ find_row (user_is n) db.users

  -- the attempt of one user, whatever the outcome
  attempt-Added :
      (u : ConfigUser) (db : Db)
      → Up db
      → (new : Db) × (attempt (db_registry json) (enter u) (some db) ≡ (ok tt, some new))
        × Added u db new
  unfolding attempt register_user stored
  attempt-Added u db up =
      let (c, checks) = validated u db up in
      elim checks [
        | inr (invalid, (e, refused)) ↦ (
          at_clock c db,
          rw refused,
          record {
            up = up;
            groups = refl;
            here = rw invalid (kept_or-false (find_row (user_is u.name) db.users) (configured u));
            others = λ n h. refl;
          },
        )
        | inl (valid, passed) ↦ elim (Option-cases (find_row (user_is u.name) db.users)) [
          | inr (r, taken) ↦ (
            at_clock (c + 1) db,
            rw (
              passed,
              registration_taken json max random u.name u.type u.group u.attributes (options u)
                  (at_clock c db) r taken (up c),
            ),
            record { up = up; groups = refl; here = rw taken refl; others = λ n h. refl },
          )
          | inl fresh ↦ (
            registered json max random u.name u.type u.group u.attributes (options u)
                (at_clock c db),
            rw (
              passed,
              registration-fresh json max random u.name u.type u.group u.attributes (options u)
                  (at_clock c db) fresh (up c) (up (c + 1)) (up (c + 1 + 1)),
            ),
            record {
              up = up;
              groups = refl;
              here =
                  rw (fresh, valid)
                    (find-registered json max random u.name u.type u.group u.attributes (options u)
                      (at_clock c db) fresh);
              others = λ n apart.
                  find_row-update_rows_other (user_is n) (user_is u.name) (with_max max)
                    (λ x same. rw ((text_eq_iff x.name u.name).0 same) apart) (λ x. refl)
                    (db.users ++ _ ∷ [])
                  ∙ find_row-append_other (user_is n) db.users _ apart;
            },
          )
        ]
      ]

  -- the rows of the other names stay, and the same users are valid
  stored-Added :
      (u v : ConfigUser) (db new : Db)
      → Added u db new
      → text_eq v.name u.name ≡ false
      → stored v new ≡ stored v db
  unfolding stored
  stored-Added u v db new a apart =
      rw (a.others v.name (text_eq-false v.name u.name apart), a.groups)

  later_rows :
      (u : ConfigUser) (db new last : Db) (users : List ConfigUser)
      → Added u db new
      → Apart u.name users
      → All (λ (v : ConfigUser). find_row (user_is v.name) last.users ≡ stored v new) users
      → All (λ (v : ConfigUser). find_row (user_is v.name) last.users ≡ stored v db) users
  later_rows u db new last [] a apart h = tt
  later_rows u db new last (v ∷ users) a (here, apart) (h, hs) =
      (h ∙ stored-Added u v db new a here, later_rows u db new last users a apart hs)

  -- On an engine that answers, PopulateUsersTable succeeds, and then the table holds of every user of the
  -- configuration the row that it held before, if there was one; otherwise, if the user's type needs no
  -- group or its group is in the table, a new row with the configured password and the limit on
  -- enrollments; and otherwise none. The rows of all other users, and the groups, are as they were. The
  -- users of the configuration have different names.
  pub populate_users_table_lem :
      (users : List ConfigUser) (db : Db)
      → Up db
      → DistinctNames users
      → (last : Db) × (populate_users_table (db_registry json) max max_text random users (some db)
          ≡ (ok tt, some last))
        × Up last
        × (last.groups ≡ db.groups)
        × All (λ (u : ConfigUser). find_row (user_is u.name) last.users ≡ stored u db) users
        × ((n : Text)
            → Apart n users
            → find_row (user_is n) last.users ≡ find_row (user_is n) db.users)
  unfolding populate_users_table
  populate_users_table_lem [] db up distinct = (db, refl, up, refl, tt, λ n h. refl)
  populate_users_table_lem (u ∷ users) db up (apart, distinct) =
      let (mid, first, a) = attempt-Added u db up in
      let (last, rest, up', groups, all, others) =
        populate_users_table_lem users mid a.up distinct in
      (
        last,
        rw (first, rest),
        up',
        groups ∙ a.groups,
        (others u.name apart ∙ a.here, later_rows u db mid last users a apart all),
        λ n (h, hs). others n hs ∙ a.others n h,
      )

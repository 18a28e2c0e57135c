-- ===== src/Register/Rules.antt =====
-- Who may register whom: what a successful RegisterUser of cli/server/register.go has checked, over any
-- registry.
use copfvtci.Prelude.{◌≡◌, inl, inr, true, false, List, arith, Text, is_empty}
use copfvtci.Prelude.Int.{ℤ}
use copfvtci.Errors.{ok, Result-cases}
use copfvtci.Spi.{Attribute, UserRegistry, GroupInfo}
use copfvtci.Register.{register_user, can_register, validate_id, require_group}

module _ {S : Type 0} (reg : UserRegistry S) where
  validate_id-ok :
      (user_type group : Text) (s : S) (t : Unit {0})
      → (validate_id reg user_type group s).0 ≡ ok t
      → require_group user_type ≡ true
      → (g : GroupInfo) × ((reg.get_group group s).0 ≡ ok g)
  unfolding validate_id
  validate_id-ok user_type group s t h needed = elim (Result-cases (reg.get_group group s).0) [
    | inl (g, found) ↦ (g, found)
    | inr (e, failed) ↦ absurd (ground arith)
  ]

  passed :
      (max : ℤ) (random id user_type group : Text) (attributes : List Attribute) (registrar : Text)
      (opt : List Text) (s : S) (tok : Text)
      → (register_user reg max random id user_type group attributes registrar opt s).0 ≡ ok tok
      → is_empty registrar ≡ false
      → ((can_register reg registrar user_type s).0 ≡ ok tt)
        × ((validate_id reg user_type group (can_register reg registrar user_type s).1).0 ≡ ok tt)
  unfolding register_user
  passed max random id user_type group attributes registrar opt s tok h named =
      let h' = rw named at h in
      elim (Result-cases (can_register reg registrar user_type s).0) [
        | inl (t, e) ↦
            elim (Result-cases
              (validate_id reg user_type group (can_register reg registrar user_type s).1).0) [
                | inl (v, f) ↦ (e, f)
                | inr (f, failed) ↦ absurd (ground arith)
              ]
        | inr (e, failed) ↦ absurd (ground arith)
      ]

  -- A registration that succeeds for a named registrar, of a type that needs a group (a peer or a
  -- client), gave a group that the registry knew after the registrar's check.
  pub register_user-group :
      (max : ℤ) (random id user_type group : Text) (attributes : List Attribute) (registrar : Text)
      (opt : List Text) (s : S) (tok : Text)
      → (register_user reg max random id user_type group attributes registrar opt s).0 ≡ ok tok
      → is_empty registrar ≡ false
      → require_group user_type ≡ true
      → (g : GroupInfo) × ((reg.get_group group (can_register reg registrar user_type s).1).0
          ≡ ok g)
  register_user-group max random id user_type group attributes registrar opt s tok h named needed =
      validate_id-ok user_type group (can_register reg registrar user_type s).1 tt
        (passed max random id user_type group attributes registrar opt s tok h named).1 needed

-- ===== src/Register.antt =====
-- cli/server/register.go and cli/server/user.go: registration of users, over any user registry.
-- The configured limit CFG.UsrReg.MaxEnrollments and the string that util.RandomString(12) returns are
-- arguments.
pub mod Rules
pub mod OnDb
pub mod Handler
use copfvtci.Prelude.{
  ℕ, Bool, true, false, not, ◌||◌, List, [], ◌∷◌, Text, text_eq, codes, is_empty, if◌then◌else◌,
}
use copfvtci.Prelude.Int.{ℤ}
use copfvtci.Strings.{to_lower, str_contained}
use copfvtci.Strings.SplitJoin.{split}
use copfvtci.Errors.{
  Error, Result, ok, err, Method, ◌>>=◌, ◌>>◌, pure, raise, require, when, rename_err, succeeds,
  cop_error, registering_user_error, registrar_missing, invalid_type, lacks_attribute,
}
use copfvtci.Spi.{Attribute, UserInfo, User, UserRegistry}
use copfvtci.Accessor.{max_enrollments_field}

abbrev pub registrar_roles : Text
registrar_roles = codes "hf.Registrar.Roles"

abbrev pub peer : Text
peer = codes "peer"

abbrev pub client : Text
client = codes "client"

unfoldable pub require_group : Text → Bool
require_group user_type = text_eq (to_lower user_type) peer || text_eq (to_lower user_type) client

-- the roles that a registrar's attribute lists
unfoldable pub roles_of : Text → List Text
roles_of roles = if not (is_empty roles) then split roles b',' else []

-- opt[0], if it is there and not empty
unfoldable pub token_of : List Text → Text → Text
token_of [] random = random
token_of (o ∷ opt) random = if is_empty o then random else o

module _ {S : Type 0} (reg : UserRegistry S) where
  unfoldable pub can_register : Text → Text → Method S (Unit {0})
  can_register registrar user_type = do
    user ← rename_err (λ e. registrar_missing) (reg.get_user registrar [])
    require (str_contained user_type (roles_of (user.get_attribute registrar_roles)))
        (cop_error registering_user_error)

  unfoldable pub is_valid_group : Text → Method S Bool
  is_valid_group group = do reg.get_group group; pure true

  unfoldable pub validate_id : Text → Text → Method S (Unit {0})
  unfolding is_valid_group
  validate_id user_type group =
      when (require_group user_type) do valid ← is_valid_group group; require valid invalid_type

  unfoldable pub register_user_id :
      ℤ → Text → Text → Text → Text → List Attribute → List Text → Method S Text
  register_user_id max random id user_type group attributes opt = do
    let tok = token_of opt random
    exists ← succeeds (reg.get_user id [])
    require (not exists) (cop_error registering_user_error)
    reg.insert_user
        (record { name = id; pass = tok; type = user_type; group = group; attributes = attributes })
    reg.update_field id max_enrollments_field max
    pure tok

  unfoldable pub register_user :
      ℤ → Text → Text → Text → Text → List Attribute → Text → List Text → Method S Text
  register_user max random id user_type group attributes registrar opt = do
    when (not (is_empty registrar)) (can_register registrar user_type)
    validate_id user_type group
    register_user_id max random id user_type group attributes opt

  -- user.go
  unfoldable pub get_user_attr_value : Text → Text → Method S Text
  get_user_attr_value username attrname = do
    user ← reg.get_user username (attrname ∷ [])
    pure (user.get_attribute attrname)

  unfoldable pub user_has_attribute : Text → Text → Method S (Unit {0})
  unfolding get_user_attr_value
  user_has_attribute username attrname = do
    value ← get_user_attr_value username attrname
    require (not (is_empty value)) lacks_attribute

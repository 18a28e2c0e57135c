-- ===== src/Bootstrap.antt =====
-- cli/server/bootstrap.go: the groups and the users of the configuration file, put into the registry at
-- the start of the server. The configuration (viper and CFG) is an argument.
pub mod Groups
pub mod Users
use copfvtci.Prelude.{ℕ, zero, suc, List, [], ◌∷◌, ◌++◌, Text, codes, not}
use copfvtci.Prelude.Int.{ℤ}
use copfvtci.Errors.{Method, ◌>>=◌, ◌>>◌, pure, require, succeeds, group_registered}
use copfvtci.Spi.{Attribute, UserRegistry}
use copfvtci.Register.{register_user}

-- viper.GetStringSlice, and the keys of viper.GetStringMapString in the order of the iteration
pub record Config : Type 0 where
  pub string_slice : Text → List Text
  pub map_keys : Text → List Text

-- an entry of CFG.Users
pub record ConfigUser : Type 0 where
  pub name : Text
  pub pass : Text
  pub type : Text
  pub group : Text
  pub attributes : List Attribute

module _ {S : Type 0} (reg : UserRegistry S) where
  unfoldable pub register_group : Text → Text → Method S (Unit {0})
  register_group name parent = do
    exists ← succeeds (reg.get_group name)
    require (not exists) group_registered
    reg.insert_group name parent

  -- a call whose error is dropped
  unfoldable pub attempt : {A : Type 0} → Method S A → Method S (Unit {0})
  attempt m = do succeeds m; pure tt

  -- the loop over the leaves
  unfoldable pub register_groups : List Text → Text → Method S (Unit {0})
  register_groups [] parent = pure tt
  register_groups (n ∷ names) parent = do
    attempt (register_group n parent)
    register_groups names parent

  -- each one of the loop over the children, for a given body
  unfoldable pub for_each : (Text → Method S (Unit {0})) → List Text → Method S (Unit {0})
  for_each body [] = pure tt
  for_each body (n ∷ names) = do body n; for_each body names

  -- populateGroup; `level` counts down to the leaves
  unfoldable pub populate_group : Config → ℕ → Text → Text → Text → Method S (Unit {0})
  populate_group cfg zero name parent key = do
    attempt (register_group name parent)
    register_groups (cfg.string_slice (key ++ b'.' ∷ name)) name
  populate_group cfg (suc level) name parent key = do
    attempt (register_group name parent)
    for_each (λ child. populate_group cfg level child name (key ++ b'.' ∷ name))
        (cfg.map_keys (key ++ b'.' ∷ name))

  -- PopulateGroupsTable, behind the reading of the file
  unfoldable pub populate_groups_table : Config → Method S (Unit {0})
  populate_groups_table cfg =
      for_each (λ name. populate_group cfg 1 name [] (codes "groups"))
        (cfg.map_keys (codes "groups"))

  -- PopulateUsersTable, over CFG.Users in the order of the iteration. `max_text` is strconv.Itoa of the
  -- configured limit, which the source passes as a second option, behind the password.
  unfoldable pub populate_users_table : ℤ → Text → Text → List ConfigUser → Method S (Unit {0})
  populate_users_table max max_text random [] = pure tt
  populate_users_table max max_text random (u ∷ users) = do
    attempt (
        register_user reg max random u.name u.type u.group u.attributes [] (u.pass ∷ max_text ∷ []))
    populate_users_table max max_text random users

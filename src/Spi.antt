-- ===== src/Spi.antt =====
-- cli/server/spi/userregistry.go and spi/group.go: the interfaces between the server's handlers and a
-- user registry. The registry's state is a parameter `S`; a method may change it and may fail.
use copfvtci.Prelude.{ℕ, Text, List}
use copfvtci.Prelude.Int.{ℤ}
use copfvtci.Errors.{Method}

-- idp.Attribute
pub record Attribute : Type 0 where
  pub name : Text
  pub value : Text

pub record UserInfo : Type 0 where
  pub name : Text
  pub pass : Text
  pub type : Text
  pub group : Text
  pub attributes : List Attribute

pub record GroupInfo : Type 0 where
  pub name : Text
  pub parent_id : Text

-- spi.NewGroup, GetName and GetParent: a group is its record.
pub group_name : GroupInfo → Text
group_name g = g.name

pub group_parent : GroupInfo → Text
group_parent g = g.parent_id

-- The SPI for a user: a handle that the registry gave out.
pub record User (S : Type 0) : Type 0 where
  pub get_name : Text
  pub login : Text → Method S (Unit {0})
  pub affiliation_path : List Text
  pub get_attribute : Text → Text

pub record UserRegistry (S : Type 0) : Type 0 where
  pub get_user : Text → List Text → Method S (User S)
  pub insert_user : UserInfo → Method S (Unit {0})
  pub update_user : UserInfo → Method S (Unit {0})
  pub delete_user : Text → Method S (Unit {0})
  pub update_field : Text → ℕ → ℤ → Method S (Unit {0})
  pub get_field : Text → ℕ → Method S Text
  pub get_group : Text → Method S GroupInfo
  pub get_root_group : Method S GroupInfo
  pub insert_group : Text → Text → Method S (Unit {0})
  pub delete_group : Text → Method S (Unit {0})

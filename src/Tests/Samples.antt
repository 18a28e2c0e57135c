-- ===== src/Tests/Samples.antt =====
-- Data for the tests: a database with one user, and parameters that are simple functions.
use copfvtci.Prelude.{ℕ, Bool, true, false, none, some, [], ◌∷◌, Text, codes}
use copfvtci.Prelude.Int.{pos}
use copfvtci.Spi.{Attribute, UserInfo}
use copfvtci.Db.{Db, UserRecord, GroupRecord, CertRecord, Driver, sqlite3}
use copfvtci.Accessor.{Json}
use copfvtci.TCert.Cbc.{Cbc, CbcLaws}
use mathlib.Core.Path.{refl}

abbrev pub role : Attribute
role = record { name = codes "hf.Registrar.Roles"; value = codes "client,peer" }

-- every attribute column decodes to one role
abbrev pub json : Json
json = record { marshal = λ _. codes "x"; unmarshal = λ _. some (role ∷ []) }

abbrev pub alice_name : Text
alice_name = codes "alice"

abbrev pub bob_name : Text
bob_name = codes "bob"

abbrev pub pw : Text
pw = codes "pw"

abbrev pub alice : UserRecord
alice = record {
  name = alice_name;
  pass = pw;
  type = codes "client";
  group = codes "bank/eu";
  attributes = codes "x";
  state = pos 1;
  max_enrollments = pos 3;
  serial_number = [];
  aki = [];
}

abbrev pub bank : GroupRecord
bank = record { name = codes "bank"; parent_id = []; prekey = none }

abbrev pub cert : CertRecord
cert = record {
  id = alice_name;
  serial = codes "1";
  aki = codes "k";
  ca_label = [];
  status = codes "good";
  reason = pos 0;
  expiry = 9;
  revoked_at = 0;
  pem = codes "p";
}

abbrev pub db_on : Driver → (ℕ → Bool) → Db
db_on driver down = record {
  driver = driver;
  down = down;
  time = λ n. n;
  counts_changed = false;
  clock = 0;
  tables = record { users = alice ∷ []; groups = bank ∷ []; certificates = cert ∷ [] };
}

abbrev pub db : Db
db = db_on sqlite3 (λ _. false)

abbrev pub bob : UserInfo
bob = record {
  name = bob_name;
  pass = codes "b0b";
  type = codes "peer";
  group = codes "bank";
  attributes = role ∷ [];
}

-- a cipher that leaves the blocks as they are
abbrev pub clear : Cbc
clear = record { valid_key = λ _. true; crypt = λ _ _ s. s; decrypt = λ _ _ s. s }

pub clear-CbcLaws : CbcLaws clear
clear-CbcLaws = record {
  decrypt-crypt = λ key iv s h. refl;
  length-crypt = λ key iv s h. refl;
  length-decrypt = λ key iv s h. refl;
}

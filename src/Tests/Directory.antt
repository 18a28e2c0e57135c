-- ===== src/Tests/Directory.antt =====
-- Directory: theorems of Ldap at concrete inputs: a directory whose one entry is alice's.
use copfvtci.Prelude.{
  ℕ, ◌≡◌, true, false, none, some, List, [], ◌∷◌, Text, codes, text_eq, ltb, if◌then◌else◌,
}
use copfvtci.Prelude.Int.{pos}
use copfvtci.Strings.SplitJoin.{split, join}
use copfvtci.Errors.{pure}
use copfvtci.Auth.{AuthHandler, Request, Checks}
use copfvtci.Revoke.{CertStore, Reads}
use copfvtci.Ldap.{LdapClient, Entry, Directory, LdapState, reverse_slice}
use copfvtci.Ldap.Lookup.{reverse_slice-reverse}
use copfvtci.Tests.Samples.{alice_name, bob_name, pw}
use mathlib.Core.List.{reverse}

abbrev dn : Text
dn = codes "cn=alice,ou=eu,o=bank"

reverse_slice-reverse_example :
    (reverse_slice (codes "a" ∷ codes "b" ∷ []) ≡ reverse (codes "a" ∷ codes "b" ∷ []))
    × (join (reverse (reverse_slice (split dn b','))) b',' ≡ dn)
reverse_slice-reverse_example = reverse_slice-reverse (codes "a" ∷ codes "b" ∷ []) dn

abbrev client : LdapClient
client = record {
  host = codes "h";
  port = pos 389;
  use_ssl = false;
  admin_dn = codes "cn=admin";
  admin_password = pw;
  base = codes "o=bank";
  user_filter = codes "(uid=%s)";
  group_filter = codes "(memberUid=%s)";
}

abbrev entry : Entry
entry = record { dn = dn; attribute_value = λ name. codes "v" }

-- connection 9 has been lost
abbrev directory : Directory
directory = record {
  dial = λ n lc. true;
  bind = λ n conn name pass. text_eq pass pw;
  search = λ n conn r. if ltb conn 9 then some (entry ∷ []) else none;
  sprintf = λ format name. name;
}

abbrev asked : List Text
asked = codes "mail" ∷ []

abbrev lost : LdapState
lost = record { admin_conn = some 9; calls = 20 }

abbrev basic : Checks ℕ
basic = record {
  basic_auth = λ h. some (alice_name, pw);
  verify_token = λ t b. none;
  revoked_or_expired = λ c. false;
  checked = λ c. true;
  common_name = λ c. alice_name;
}

abbrev request : Request
request = record { authorization = codes "Basic"; body = some (codes "{}"); eid = none }

abbrev basic_handler : AuthHandler
basic_handler = record { basic = true; token = false }

abbrev store : CertStore LdapState
store = record {
  revoke_certificate = λ serial aki reason. pure tt;
  revoke_certificates_by_id = λ id reason. pure tt;
}

abbrev reads : Reads ℕ
reads = record {
  verify_token = λ t b. some 7;
  common_name = λ c. alice_name;
  parse = λ t. some (record { name = bob_name; serial = []; aki = []; reason = pos 1 });
}

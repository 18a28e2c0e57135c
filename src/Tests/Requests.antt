-- ===== src/Tests/Requests.antt =====
-- Requests: theorems of Auth, Revoke, Register/Rules and Certs at concrete inputs.
use copfvtci.Prelude.{
  ℕ, ◌+◌, ◌≡◌, ◌≢◌, ◌⊎◌, refl, map, true, false, Option, none, some, [], ◌∷◌, Text, codes,
}
use copfvtci.Prelude.Int.{pos}
use copfvtci.Errors.{ok, Method, ◌>>◌, pure}
use copfvtci.Spi.{UserRegistry}
use copfvtci.Db.Rows.{select_rows}
use copfvtci.Accessor.{Accessor, db_registry, with_db, get_user}
use copfvtci.Auth.{AuthHandler, Request, Checks, serve_http, set_eid}
use copfvtci.Auth.Soundness.{TokenShown, serve_http_token}
use copfvtci.Revoke.{CertStore, Reads, success, handle_revoke, hf_revoker}
use copfvtci.Revoke.Guards.{MayRevoke, handle_revoke_guarded}
use copfvtci.Certs.{CertificateRecord, revoke_certificates_by_id}
use copfvtci.Certs.ById.{is_live, revoked_row, revoke_certificates_by_id_lem}
use copfvtci.Tests.Samples.{json, alice_name, db}

-- every token is by certificate 7, of alice
abbrev checks_with : Option (Text × Text) → Checks ℕ
checks_with basic = record {
  basic_auth = λ h. basic;
  verify_token = λ t b. some 7;
  revoked_or_expired = λ c. false;
  checked = λ c. true;
  common_name = λ c. alice_name;
}

abbrev request : Request
request = record { authorization = codes "tok"; body = some (codes "{}"); eid = none }

abbrev token_handler : AuthHandler
token_handler = record { basic = false; token = true }

abbrev basic_handler : AuthHandler
basic_handler = record { basic = true; token = false }

abbrev reg : UserRegistry Accessor
reg = db_registry json

serve_http_token_example :
    TokenShown reg (checks_with none) request (set_eid alice_name request)
    × ((serve_http reg (checks_with none) true token_handler request (some db)).1 ≡ some db)
unfolding serve_http
serve_http_token_example =
    serve_http_token reg (checks_with none) token_handler request (set_eid alice_name request)
      (some db) refl refl refl

abbrev forget : {A : Type 0} → Method Accessor A → Method Accessor (Unit {0})
forget m = do m; pure tt

abbrev store : CertStore Accessor
store = record {
  revoke_certificate = λ serial aki reason. pure tt;
  revoke_certificates_by_id = λ id reason. forget (with_db (revoke_certificates_by_id id reason));
}

abbrev reads : Reads ℕ
reads = record {
  verify_token = λ t b. some 7;
  common_name = λ c. alice_name;
  parse = λ t. some (record { name = alice_name; serial = []; aki = []; reason = pos 1 });
}

handle_revoke_guarded_example :
    MayRevoke reg store reads (codes "tok") (codes "{}") (some db)
    ⊎ (((handle_revoke reg store reads (codes "tok") (some (codes "{}")) (some db)).0 ≢ success)
        × (((handle_revoke reg store reads (codes "tok") (some (codes "{}")) (some db)).1 ≡ some db)
            ⊎ ((cert : ℕ) × ((handle_revoke reg store reads
                    (codes "tok")
                    (some (codes "{}"))
                    (some db)).1
                  ≡ (reg.get_user (reads.common_name cert) (hf_revoker ∷ []) (some db)).1))))
handle_revoke_guarded_example =
    handle_revoke_guarded reg store reads (codes "tok") (codes "{}") (some db)

revoke_certificates_by_id_lem_example :
    ((revoke_certificates_by_id alice_name (pos 1) db).0
      ≡ ok (select_rows (is_live alice_name) db.certificates))
    × ((revoke_certificates_by_id alice_name (pos 1) db).1.certificates
        ≡ map (revoked_row alice_name (pos 1) (db.time (db.clock + 1))) db.certificates)
    × (select_rows
          (is_live alice_name)
          (revoke_certificates_by_id alice_name (pos 1) db).1.certificates
        ≡ [])
revoke_certificates_by_id_lem_example =
    revoke_certificates_by_id_lem alice_name (pos 1) db refl refl

abbrev new_cert : CertificateRecord
new_cert = record {
  serial = codes "2";
  aki = codes "k";
  ca_label = [];
  status = codes "good";
  reason = pos 0;
  expiry = 9;
  revoked_at = 0;
  pem = codes "q";
}

-- ===== src/Tests/Revoking.antt =====
-- Revoking: theorems of Client.Revoking, at a database whose user may revoke, and of Client.Tls.Roots.
use copfvtci.Prelude.{
  ℕ, ◌≡◌, ◌↔◌, ◌++◌, length, All, refl, arith, true, false, none, some, [], ◌∷◌, codes,
}
use copfvtci.Prelude.Int.{pos}
use copfvtci.Errors.{ok}
use copfvtci.Accessor.{
  Accessor, Json, db_registry, with_db, get_user, get_db_user, new_db_user, attr_map, map_get,
}
use copfvtci.Auth.{Checks, auth_wrapper, serve_http}
use copfvtci.Db.{query}
use copfvtci.Db.Rows.{find_row}
use copfvtci.Register.{user_has_attribute, get_user_attr_value}
use copfvtci.Revoke.{
  RevocationRequest, Reply, success, status, CertStore, Reads, hf_revoker, handle_revoke,
}
use copfvtci.Token.{
  PublicKey, rsa, get_rsa_private_key, create_token, token_by, gen_rsa_token, verify_token,
  decode_token, decode_parts, verify_by,
}
use copfvtci.TCertHandler.Caller.{checks_with}
use copfvtci.Client.Http.{HttpRequest, new_post, send_post}
use copfvtci.Client.Identity.{ClientJson, revoke, post, post_request, add_token_auth_hdr}
use copfvtci.Client.Revoking.{RevokeWire, revoke_endpoint, revoke_network, revoke-handle_revoke}
use copfvtci.Client.Tls.{TlsLib, ClientTlsConfig, transport_config}
use copfvtci.Client.Tls.Roots.{HasCert, trusting, transport_config_lem}
use copfvtci.Client.Url.{get_url, normalize_url, with_host, with_scheme, port_of}
use copfvtci.Strings.SplitJoin.{split}
use copfvtci.Prelude.{text_eq}
use copfvtci.Tests.Samples.{alice_name, db}
use copfvtci.Tests.Tokens.{crypto}
use copfvtci.Tests.Clients.{lib, identity, client_json}

-- every attribute column decodes to the right to revoke
abbrev revoker_json : Json
revoker_json = record {
  marshal = λ _. codes "x";
  unmarshal = λ _. some (record { name = hf_revoker; value = codes "true" } ∷ []);
}

abbrev request : RevocationRequest
request = record { name = []; serial = codes "1"; aki = codes "2"; reason = pos 0 }

abbrev certs : CertStore Accessor
certs = record {
  revoke_certificate = λ serial aki reason s. (ok tt, s);
  revoke_certificates_by_id = λ name reason s. (ok tt, s);
}

abbrev checks : Checks (PublicKey ℕ)
checks = checks_with (crypto (rsa 7)) (λ h. none) (λ x. false) (λ x. true) (λ x. alice_name)

abbrev reads : Reads (PublicKey ℕ)
reads = record {
  verify_token = checks.verify_token;
  common_name = λ x. alice_name;
  parse = λ s. some request;
}

abbrev wire : RevokeWire
wire = record {
  accepts_url = λ url. true;
  error_body = λ s. record { decoded = false; messages = [] };
  render = λ r. codes "{}";
  render_error = λ e. codes "no";
  error_status = λ e. 400;
}

abbrev revoking_json : ClientJson
revoking_json = record client_json { revocation_request = λ q. some (codes "b") }

revoke-handle_revoke_example :
    (sent : HttpRequest) × (cert : PublicKey ℕ) × (some (codes "b") ≡ some sent.body)
    × (reads.verify_token sent.authorization sent.body ≡ some cert)
    × ((user_has_attribute (db_registry revoker_json) alice_name hf_revoker (some db)).0 ≡ ok tt)
    × (copfvtci.Revoke.revoke
          (db_registry revoker_json)
          certs
          reads
          request
          (user_has_attribute (db_registry revoker_json) alice_name hf_revoker (some db)).1
        ≡ (
          success,
          (revoke lib
              (revoke_network (db_registry revoker_json) certs reads checks wire)
              (crypto (rsa 7))
              revoking_json
              identity
              request
              (some db)).1,
        ))
unfolding revoke copfvtci.Revoke.revoke post post_request add_token_auth_hdr new_post send_post
    revoke_endpoint serve_http auth_wrapper handle_revoke status user_has_attribute
    get_user_attr_value with_db get_user get_db_user query new_db_user find_row text_eq attr_map
    map_get get_url normalize_url with_host with_scheme port_of split get_rsa_private_key
    create_token token_by gen_rsa_token verify_token decode_token decode_parts verify_by
revoke-handle_revoke_example =
    revoke-handle_revoke (db_registry revoker_json) certs reads checks wire lib (crypto (rsa 7))
      revoking_json identity request (some db) (λ body h. refl) (λ e. omega arith) refl

-- every file reads as its name and has its length for a certificate
abbrev tls_lib : TlsLib ℕ ℕ
tls_lib = record {
  join = λ dir name. dir ++ b'/' ∷ name;
  read_file = λ file. some file;
  unmarshal = λ buf. record {
    ca_cert_files = codes "root.pem" ∷ codes "other.pem" ∷ [];
    key_file = codes "k";
    cert_file = codes "c";
  };
  load_key_pair = λ cert key. none;
  certs_in = λ pem. length pem ∷ [];
}

abbrev tls_config : ClientTlsConfig
tls_config = tls_lib.unmarshal []

transport_config_lem_example :
    (transport_config tls_lib (codes "/home") ≡ some (trusting tls_lib tls_config)) ↔ (
      All (HasCert tls_lib) tls_config.ca_cert_files
      × (trusting tls_lib tls_config ≡ trusting tls_lib tls_config))
transport_config_lem_example =
    transport_config_lem tls_lib (codes "/home") tls_config (trusting tls_lib tls_config) refl

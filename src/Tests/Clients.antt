-- ===== src/Tests/Clients.antt =====
-- Clients: theorems of Client at concrete inputs. A URL is its host, and every host has the port "1"; a
-- file's name is its directory and its name.
use copfvtci.Prelude.{
  ℕ, ◌≡◌, ◌≢◌, inl, inr, refl, true, false, Option, none, some, List, [], ◌∷◌, ◌++◌, Text, codes,
  text_eq, arith, Bool-cases, text_eq_iff, if◌then◌else◌,
}
use copfvtci.Prelude.Int.{pos}
use copfvtci.Errors.{ok}
use copfvtci.Auth.{AuthHandler, Checks, auth_wrapper, serve_http}
use copfvtci.Token.{
  PublicKey, rsa, get_rsa_private_key, verify_token, create_token, token_by, gen_rsa_token,
  decode_token, decode_parts, verify_by,
}
use copfvtci.TCertHandler.Caller.{checks_with}
use copfvtci.Client.Url.{Url, NetLib, normalize_url, with_host, with_scheme, port_of, get_url}
use copfvtci.Client.Http.{Client, Network, new_post}
use copfvtci.Client.Identity.{
  Identity, new_identity, ClientJson, json_other, post_request, post, add_token_auth_hdr,
}
use copfvtci.Client.Files.{Env, Disk, get_my_enrollment_dir, get_my_key_file, get_my_cert_file}
use copfvtci.Spi.{Attribute}
use copfvtci.Register.Handler.{RegisterRequest, handle_register}
use copfvtci.Register.{
  register_user, can_register, roles_of, token_of, register_user_id, validate_id, require_group,
}
use copfvtci.Client.Identity.{RegistrationRequest, json_string, register}
use copfvtci.Client.Http.{send_post}
use copfvtci.Client.Registering.{Wire, server_network, register_endpoint, register-register_user}
use copfvtci.Accessor.{
  db_registry, with_db, get_db_user, get_user, get_group, insert_user, update_field, new_db_user,
  attr_map, map_get,
}
use copfvtci.Db.{query, exec, violates, affected, effect}
use copfvtci.Db.Rows.{find_row, count_rows}
use copfvtci.Strings.{to_lower, str_contained}
use copfvtci.Strings.SplitJoin.{split}
use copfvtci.Tests.Samples.{json, alice_name, bob_name, db}
use copfvtci.Tests.Tokens.{crypto}

abbrev pub lib : NetLib
lib = record {
  trim_space = λ s. s;
  parse = λ s. some (record { scheme = codes "https"; opaque = []; host = codes "h"; path = s });
  string = λ u. u.scheme ++ codes "://" ++ u.host;
  join_host_port = λ host port. host ++ b':' ∷ port;
  split_host_port = λ s. some (s, codes "1");
  atoi = λ s. some (pos 1);
}

abbrev at_host : Text → Text → Url
at_host host path = record { scheme = codes "https"; opaque = []; host = host; path = path }

abbrev pub env : Env
env = record { getenv = λ name. []; join = λ dir name. dir ++ b'/' ∷ name }

abbrev pub client : Client
client = record { server_url = []; home_dir = codes "/home" }

abbrev pub disk : Disk
disk = record { refuses = λ file. false; files = [] }

pub key_file-cert_file : get_my_key_file env client ≢ get_my_cert_file env client
unfolding get_my_key_file get_my_cert_file get_my_enrollment_dir
key_file-cert_file h = absurd (cc)

abbrev pub identity : Identity
identity = new_identity client alice_name (some (codes "k")) (some (codes "c"))

abbrev pub client_json : ClientJson
client_json = record {
  register_request = λ q. none;
  revocation_request = λ q. none;
  response_result = λ s. json_other;
}

abbrev offline : Network ℕ
offline = record {
  accepts_url = λ url. true;
  do_request = λ req w. (none, w);
  error_body = λ s. record { decoded = false; messages = [] };
}

abbrev token_handler : AuthHandler
token_handler = record { basic = false; token = true }

abbrev bob_request : RegisterRequest
bob_request = record {
  user = bob_name;
  group = codes "bank";
  type = codes "client";
  attributes = [];
  caller_id = alice_name;
}

abbrev wire : Wire
wire = record {
  accepts_url = λ url. true;
  error_body = λ s. record { decoded = false; messages = [] };
  render = λ tok. tok;
  std_encode = λ tok. tok ++ codes "=";
  render_error = λ e. codes "no";
  error_status = λ e. 400;
  parse = λ s. some bob_request;
}

-- the encoder writes the one request and refuses every other
abbrev no_attributes : List Attribute → Option Text
no_attributes [] = some (codes "b")
no_attributes (a ∷ rest) = none

abbrev written : RegisterRequest → Option Text
written q =
    if text_eq q.user bob_name
    then if text_eq q.group (codes "bank")
      then if text_eq q.type (codes "client")
        then if text_eq q.caller_id alice_name then no_attributes q.attributes else none
        else none
      else none
    else none

no_attributes_lem :
    (attrs : List Attribute) (body : Text) → no_attributes attrs ≡ some body → [] ≡ attrs
no_attributes_lem [] body h = refl
no_attributes_lem (a ∷ rest) body h = absurd (cc)

written_lem :
    (q : RegisterRequest) (body : Text) → written q ≡ some body → some bob_request ≡ some q
written_lem q body h = elim (Bool-cases (text_eq q.user bob_name)) [
  | inr e ↦ absurd (ground arith)
  | inl e ↦ elim (Bool-cases (text_eq q.group (codes "bank"))) [
    | inr f ↦ absurd (ground arith)
    | inl f ↦ elim (Bool-cases (text_eq q.type (codes "client"))) [
      | inr g ↦ absurd (ground arith)
      | inl g ↦ elim (Bool-cases (text_eq q.caller_id alice_name)) [
        | inr k ↦ absurd (ground arith)
        | inl k ↦
            let user = (text_eq_iff q.user bob_name).0 e in
            let group = (text_eq_iff q.group (codes "bank")).0 f in
            let type = (text_eq_iff q.type (codes "client")).0 g in
            let caller = (text_eq_iff q.caller_id alice_name).0 k in
            let none_left = no_attributes_lem q.attributes body (rw (e, f, g, k) at h) in
            rw (user, group, type, caller, none_left)
      ]
    ]
  ]
]

abbrev server_json : ClientJson
server_json = record client_json {
  register_request = written;
  response_result = λ s. json_string (s ++ codes "=");
}

abbrev bob_registration : RegistrationRequest
bob_registration = record {
  name = bob_name;
  type = codes "client";
  group = codes "bank";
  attributes = [];
  registrar = some identity;
}

abbrev pub server_checks : Checks (PublicKey ℕ)
server_checks = checks_with (crypto (rsa 7)) (λ h. none) (λ x. false) (λ x. true) (λ x. alice_name)

abbrev encoded_secret : Text
encoded_secret = codes "rnd="

register-register_user_example :
    (tok : Text) × (register_user
        (db_registry json)
        (pos 5)
        (codes "rnd")
        bob_name
        (codes "client")
        (codes "bank")
        []
        alice_name
        []
        (some db)
      ≡ (
        ok tok,
        (register lib
            (server_network (db_registry json) server_checks wire (pos 5) (codes "rnd"))
            (crypto (rsa 7))
            server_json
            bob_registration
            (some db)).1,
      ))
    × (encoded_secret ≡ tok ++ codes "=")
unfolding register post post_request add_token_auth_hdr new_post send_post register_endpoint
    serve_http auth_wrapper handle_register register_user can_register validate_id register_user_id
    require_group roles_of token_of str_contained to_lower split with_db get_user get_db_user
    get_group query new_db_user insert_user update_field exec violates affected effect find_row
    count_rows text_eq attr_map map_get get_url normalize_url with_host with_scheme port_of
    get_rsa_private_key create_token token_by gen_rsa_token verify_token decode_token decode_parts
    verify_by
register-register_user_example =
    register-register_user (db_registry json) server_checks wire (pos 5) (codes "rnd") lib
      (crypto (rsa 7)) server_json bob_registration identity (some db) encoded_secret written_lem
      (λ e. omega arith) (λ tok. refl) refl refl

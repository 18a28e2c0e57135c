-- ===== src/Tests/Commanding.antt =====
-- Commanding: theorems of Client.Enrolled and Client.Reenrolling at concrete inputs: a server that answers
-- every request with a certificate.
use copfvtci.Prelude.{
  suc, ℕ, ◌≡◌, refl, sym, inl, inr, true, false, Option, none, some, List, [], ◌∷◌, Text, text_eq,
  text_eq_iff, codes, is_empty, arith, Bool-cases, if◌then◌else◌,
}
use copfvtci.Strings.SplitJoin.{split}
use copfvtci.Errors.{ok, Method, returned}
use copfvtci.Auth.{Checks, auth_wrapper, serve_http}
use copfvtci.Accessor.{Accessor, db_registry}
use copfvtci.Db.{exec, violates, effect, affected}
use copfvtci.Db.Rows.{find_row}
use copfvtci.Certs.{insert_certificate}
use copfvtci.Tests.Enrolling.{sign_and_store}
use copfvtci.Enroll.{handle_sign, sign_endpoint}
use copfvtci.Token.{
  PublicKey, rsa, get_rsa_private_key, create_token, token_by, gen_rsa_token, verify_token,
  decode_token, decode_parts, verify_by,
}
use copfvtci.TCertHandler.Caller.{checks_with}
use copfvtci.Client.Url.{normalize_url, get_url, with_host, with_scheme, port_of}
use copfvtci.Client.Http.{Network, new_post, send_post}
use copfvtci.Client.Identity.{
  Identity, new_identity, json_string, post, post_request, add_token_auth_hdr,
}
use copfvtci.Client.Enrolling.{
  EnrollLib, SignRequest, ReenrollmentRequest, reenroll, enroll, enroll_request, gen_csr, sign_body,
  new_certificate_request, new_identity_from_response,
}
use copfvtci.Client.Reenrolling.{SignWire, reenroll-sign_endpoint}
use copfvtci.Client.Files.{
  Disk, get_default_home_dir, get_my_key_file, get_my_cert_file, get_my_enrollment_dir, store,
  store_my_identity, write_file, new_client, load_my_identity, identity_from,
}
use copfvtci.Client.Commands.{CommandJson, client_for, csr_of, enrollment, enroll_main}
use copfvtci.Client.Enrolled.{load_my_identity-enroll_main}
use copfvtci.Tests.Samples.{json, db, alice_name, pw}
use copfvtci.Tests.Tokens.{crypto}
use copfvtci.Tests.Clients.{lib, env, client, disk, client_json, key_file-cert_file}

abbrev enroll_lib : EnrollLib
enroll_lib = record {
  parse_request = λ r. some (codes "csr", codes "k");
  split_hosts = λ s. [];
  hostname = [];
  sign_request = λ r. some (codes "body");
  response = λ buf. some (record { success = true; result = json_string (codes "c") });
  b64_decoded = λ s. s;
  basic_header = λ name secret. name;
}

-- the server answers; the state counts the requests
abbrev online : Network ℕ
online = record {
  accepts_url = λ url. true;
  do_request = λ req w. (some (record { status = 200; body = some (codes "{}") }), suc w);
  error_body = λ s. record { decoded = false; messages = [] };
}

abbrev command_json : CommandJson
command_json = record {
  registration = λ s. none;
  csr_info = λ s. none;
  client = λ s defaults. some client;
}

abbrev after_enroll : Disk
after_enroll = record disk {
  files = (codes "/home/cert.pem", codes "c") ∷ (codes "/home/key.pem", codes "k") ∷ [];
}

load_my_identity-enroll_main_example :
    (key cert : Text) × ((enroll enroll_lib lib online
        (crypto (rsa 7))
        client
        (enrollment env lib online
          (crypto (rsa 7))
          (λ x. alice_name)
          client_json
          enroll_lib
          command_json
          alice_name
          pw
          none)
        0).0
      ≡ returned (new_identity client alice_name (some key) (some cert)))
    × ((load_my_identity env (crypto (rsa 7)) (λ x. alice_name) client after_enroll).0
        ≡ identity_from env (crypto (rsa 7)) (λ x. alice_name) client key cert)
unfolding client_for new_client enroll_main csr_of enroll enroll_request gen_csr sign_body
    new_certificate_request new_post send_post get_url normalize_url with_host with_scheme port_of
    text_eq new_identity_from_response store store_my_identity write_file get_my_key_file
    get_my_cert_file get_my_enrollment_dir get_default_home_dir
load_my_identity-enroll_main_example =
    load_my_identity-enroll_main env lib online (crypto (rsa 7)) (λ x. alice_name) client_json
      enroll_lib command_json alice_name pw (codes "http://s") client disk after_enroll 0 1 refl
      key_file-cert_file refl

abbrev sign_request : SignRequest
sign_request = record { hosts = []; request = codes "csr"; profile = []; label = [] }

-- the encoder writes the one request and refuses every other
abbrev if_empty : Text → Option Text → Option Text
if_empty s rest = if is_empty s then rest else none

abbrev no_hosts : List Text → Option Text → Option Text
no_hosts [] rest = rest
no_hosts (h ∷ hs) rest = none

abbrev written : SignRequest → Option Text
written q = no_hosts q.hosts (
    if_empty q.profile
      (if_empty q.label (if text_eq q.request (codes "csr") then some (codes "body") else none)))

no_hosts_lem :
    (hs : List Text) (rest : Option Text) (b : Text)
    → no_hosts hs rest ≡ some b
    → (hs ≡ []) × (rest ≡ some b)
no_hosts_lem [] rest b h = (refl, h)
no_hosts_lem (t ∷ hs) rest b h = absurd (cc)

if_empty_lem :
    (s : Text) (rest : Option Text) (b : Text)
    → if_empty s rest ≡ some b
    → (s ≡ []) × (rest ≡ some b)
if_empty_lem [] rest b h = (refl, h)
if_empty_lem (t ∷ s) rest b h = absurd (cc)

written_lem : (q : SignRequest) (body : Text) → written q ≡ some body → some sign_request ≡ some q
written_lem q body h =
    let (hosts, h1) = no_hosts_lem q.hosts _ body h in
    let (profile, h2) = if_empty_lem q.profile _ body h1 in
    let (label, h3) = if_empty_lem q.label _ body h2 in
    elim (Bool-cases (text_eq q.request (codes "csr"))) [
      | inr e ↦ absurd (cc (sym (rw e at h3)))
      | inl e ↦
          let request = (text_eq_iff q.request (codes "csr")).0 e in
          rw (hosts, profile, label, request)
    ]

abbrev wire : SignWire
wire = record {
  accepts_url = λ url. true;
  error_body = λ s. record { decoded = false; messages = [] };
  render = λ cert. cert;
  render_error = λ e. codes "no";
  error_status = λ e. 400;
}

abbrev reenroll_lib : EnrollLib
reenroll_lib = record enroll_lib {
  sign_request = written;
  response = λ buf. some (record { success = true; result = json_string buf });
}

abbrev checks : Checks (PublicKey ℕ)
checks = checks_with (crypto (rsa 7)) (λ h. none) (λ x. false) (λ x. true) (λ x. alice_name)

abbrev signer : Option (SignRequest → Method Accessor Text)
signer = some (λ q. sign_and_store (codes "new"))

abbrev old_identity : Identity
old_identity = new_identity client alice_name (some (codes "k")) (some (codes "c"))

abbrev renewal : ReenrollmentRequest
renewal = record { id = some old_identity; hosts = []; profile = []; label = []; csr = none }

abbrev renewed : Identity
renewed = new_identity client alice_name (some (codes "k")) (some (codes "new"))

reenroll-sign_endpoint_example :
    (csr key cert : Text) × (sign : SignRequest → Method Accessor Text) × (gen_csr reenroll_lib none
        alice_name
      ≡ ok (csr, key))
    × (signer ≡ some sign)
    × (sign (record { hosts = []; request = csr; profile = []; label = [] }) (some db)
        ≡ (ok cert, (sign_and_store (codes "new") (some db)).1))
    × (renewed ≡ new_identity client alice_name (some key) (some cert))
unfolding reenroll gen_csr sign_body new_certificate_request post post_request add_token_auth_hdr
    new_post send_post sign_endpoint handle_sign serve_http auth_wrapper get_url normalize_url
    with_host with_scheme port_of new_identity_from_response text_eq get_rsa_private_key
    create_token token_by gen_rsa_token verify_token decode_token decode_parts verify_by split
    insert_certificate exec violates effect affected find_row
reenroll-sign_endpoint_example =
    reenroll-sign_endpoint (db_registry json) checks wire signer (λ body. some sign_request) lib
      (crypto (rsa 7)) client_json reenroll_lib client renewal old_identity renewed (some db)
      written_lem (λ e. omega arith) (λ cert. (cert, refl, refl)) refl refl

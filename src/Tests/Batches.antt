-- ===== src/Tests/Batches.antt =====
-- Batches: theorems of TCertHandler at concrete inputs: a request of alice, with RSA key 7.
use copfvtci.Prelude.{
  ◌≡◌, refl, true, false, Option, none, some, List, [], ◌∷◌, ◌++◌, Text, codes, arith,
}
use copfvtci.Prelude.Int.{pos}
use copfvtci.Strings.SplitJoin.{split, Lacks}
use copfvtci.Errors.{ok, pure, ok-injective, Outcome, returned, failed, panicked}
use copfvtci.Spi.{User, UserRegistry}
use copfvtci.Auth.{AuthHandler, Request}
use copfvtci.Token.{ecdsa, decode_token, decode_parts}
use copfvtci.KeyTree.{KeyTree, new_key_tree, get_key, get_key_from, cached, derive_child_key}
use copfvtci.KeyTree.Cache.{Plain, new_key_tree-IsValid}
use copfvtci.Accessor.{Accessor, db_registry}
use copfvtci.TCert.Batch.{new_mgr}
use copfvtci.TCertHandler.{
  PrivateSignersRequest, attr_list, get_user_info, get_cert_from_auth_hdr, get_batch_for,
  handle_tcert,
}
use mathlib.Core.Path.{subst}
use copfvtci.TCert.Batch.{GetBatchResponse, get_batch, batch_size, issue_all, issue, tcert_index}
use copfvtci.TCert.Numbers.{generate_int_uuid, generate_bytes_uuid, big_endian}
use copfvtci.TCert.Extensions.{generate_extensions, attr_loop, header_put, build_attributes_header}
use copfvtci.TCert.Cbc.{cbc_pkcs7_encrypt, cbc_encrypt}
use copfvtci.TCert.Padding.{pkcs7_padding}
use copfvtci.TCert.Decimal.{itoa}
use copfvtci.TCertHandler.Issued.{Issued, handle_tcert-Issued}
use copfvtci.Tests.Issuing.{issuer}
use copfvtci.Tests.Samples.{json, alice_name, db}
use copfvtci.Tests.Tokens.{crypto, sample_token}

abbrev request : Request
request = record { authorization = sample_token; body = some (codes "body"); eid = none }

abbrev token_handler : AuthHandler
token_handler = record { basic = false; token = true }

abbrev child_key : Text → Text → Option Text
child_key k name = some (k ++ b'.' ∷ name)

abbrev signers : PrivateSignersRequest
signers = record {
  count = 1;
  attr_names = codes "role" ∷ [];
  encrypt_attrs = false;
  validity_period = pos 0;
}

abbrev caller : User Accessor
caller = record {
  get_name = alice_name;
  login = λ pass. pure tt;
  affiliation_path = codes "bank" ∷ codes "eu" ∷ [];
  get_attribute = λ name. codes "client";
}

abbrev registry : UserRegistry Accessor
registry = record (db_registry json) { get_user = λ id names. pure caller }

abbrev root_key : Text
root_key = codes "r"

bank-Lacks : Lacks b'/' (codes "bank")
bank-Lacks = (omega arith, (omega arith, (omega arith, (omega arith, tt))))

eu-Lacks : Lacks b'/' (codes "eu")
eu-Lacks = (omega arith, (omega arith, tt))

abbrev handled : Outcome GetBatchResponse × (Accessor × KeyTree Text)
handled =
    handle_tcert registry (crypto (ecdsa 7)) (λ x. alice_name) child_key (λ k. k) issuer new_mgr
      (codes "n") (λ x. codes "kdf") 0 (λ s. some signers) sample_token (some (codes "body"))
      (some db, new_key_tree root_key)

abbrev batch_of : Outcome GetBatchResponse → GetBatchResponse
batch_of (returned resp) = resp
batch_of (failed e) = record { id = 0; ts = 0; key = []; tcerts = [] }
batch_of panicked = record { id = 0; ts = 0; key = []; tcerts = [] }

caller-Plain :
    (id : Text) (names : List Text) (st : Accessor) (u : User Accessor)
    → (registry.get_user id names st).0 ≡ ok u
    → Plain u.affiliation_path
caller-Plain id names st u h =
    subst (λ (v : User Accessor). Plain v.affiliation_path) (ok-injective h)
      (bank-Lacks, (eu-Lacks, tt))

handle_tcert-Issued_example :
    Issued registry
      (crypto (ecdsa 7))
      (λ x. alice_name)
      child_key
      (λ k. k)
      issuer
      new_mgr
      (codes "n")
      (λ x. codes "kdf")
      0
      (λ s. some signers)
      root_key
      sample_token
      (some (codes "body"))
      (some db)
      (batch_of handled.0)
      handled.1
unfolding handle_tcert get_user_info attr_list decode_token decode_parts split
    get_cert_from_auth_hdr get_key get_key_from cached derive_child_key get_batch_for get_batch
    batch_size issue_all issue generate_int_uuid generate_bytes_uuid big_endian generate_extensions
    attr_loop header_put build_attributes_header cbc_pkcs7_encrypt cbc_encrypt pkcs7_padding itoa
    tcert_index
handle_tcert-Issued_example =
    handle_tcert-Issued registry (crypto (ecdsa 7)) (λ x. alice_name) child_key (λ k. k) issuer
      new_mgr (codes "n") (λ x. codes "kdf") 0 (λ s. some signers) root_key sample_token
      (some (codes "body")) (some db) (new_key_tree root_key) (batch_of handled.0) (omega arith)
      caller-Plain (new_key_tree-IsValid child_key root_key) refl

-- ===== src/Tests/Issuing.antt =====
-- Issuing: theorems of TCert at concrete inputs, with a cipher that leaves the blocks as they are.
use copfvtci.Prelude.{
  ℕ, ◌+◌, ◌≤◌, ◌≡◌, refl, true, false, some, List, [], ◌∷◌, ◌++◌, Text, codes, length, replicate,
  take, arith, text_eq, ◌==◌, if◌then◌else◌,
}
use copfvtci.Prelude.Int.{pos}
use copfvtci.Errors.{ok, returned}
use copfvtci.Accessor.{StrMap}
use copfvtci.TCert.Padding.{pkcs7_padding}
use copfvtci.TCert.Cbc.{
  cbc_encrypt, cbc_pkcs7_encrypt, cbc_pkcs7_decrypt, cbc_pkcs7_decrypt-encrypt,
}
use copfvtci.TCert.Decimal.{itoa}
use copfvtci.TCert.Numbers.{gen_number, generate_bytes_uuid, generate_int_uuid, big_endian}
use copfvtci.TCert.Extensions.{
  Extension, AttrRequest, oid, padding, enrollment_id_key_name, attr_loop, header_put,
  build_attributes_header, generate_extensions,
}
use copfvtci.TCert.Extensions.Decryption.{Opens, IdOpens, generate_extensions-Opens}
use copfvtci.TCert.Batch.{
  new_mgr, GetBatchRequest, GetBatchResponse, Issuer, tcert_index, batch_size, issue, issue_all,
  get_batch,
}
use copfvtci.TCert.Batch.Size.{get_batch-size}
use copfvtci.Tests.Samples.{clear, clear-CbcLaws, role, alice_name}

abbrev iv : Text
iv = replicate 16 0

abbrev hmac : Text → Text → Text
hmac key text = key ++ text

abbrev same_order : List (Text × ℕ) → List (Text × ℕ)
same_order header = header

abbrev attr_request : AttrRequest
attr_request = record { attrs = role ∷ []; encrypt_attrs = true; prekey = codes "pre" }

abbrev serial : Text
serial = 1 ∷ 2 ∷ []

cbc_pkcs7_decrypt-encrypt_example :
    (ct : Text) × (cbc_pkcs7_encrypt clear (codes "k") alice_name (some iv) ≡ ok ct)
    × (cbc_pkcs7_decrypt clear (codes "k") ct ≡ returned alice_name)
cbc_pkcs7_decrypt-encrypt_example =
    cbc_pkcs7_decrypt-encrypt clear clear-CbcLaws (codes "k") alice_name iv refl refl

generate_extensions-Opens_example :
    (es : List Extension) × (ks : StrMap) × (generate_extensions hmac clear same_order attr_request
        serial alice_name
        (codes "t")
        (λ i. some iv)
      ≡ ok (es, ks))
    × Opens hmac clear clear-CbcLaws (hmac (codes "pre") serial) (λ i. iv) ks (role ∷ []) es
    × IdOpens hmac clear clear-CbcLaws
        (hmac (codes "pre") serial)
        (λ i. iv)
        alice_name
        ks
        (role ∷ [])
        es
unfolding text_eq
generate_extensions-Opens_example =
    generate_extensions-Opens hmac clear clear-CbcLaws same_order attr_request serial alice_name
      (codes "t") (λ i. iv) refl (refl, tt) ((λ name. refl), (λ i. refl))

abbrev plain_request : AttrRequest
plain_request = record { attrs = role ∷ []; encrypt_attrs = false; prekey = codes "pre" }

abbrev plain_extensions : List Extension
plain_extensions =
    record { id = oid 10; critical = false; value = role.value }
    ∷ record { id = oid 7; critical = true; value = codes "t" }
    ∷ record { id = oid 8; critical = false; value = iv ++ pkcs7_padding (alice_name ++ padding) }
    ∷ record { id = oid 9; critical = false; value = codes "hf.Registrar.Roles->1#" }
    ∷ []

abbrev plain_keys : StrMap
plain_keys =
    (enrollment_id_key_name, take 32 (hmac (hmac (codes "pre") serial) (codes "enrollmentID"))) ∷ []

abbrev pub issuer : Issuer
issuer = record {
  hmac = hmac;
  cbc = clear;
  order = same_order;
  uuid = λ i. some (replicate 16 i);
  iv = λ i k. some iv;
  int_bytes = λ n. n ∷ [];
  tx_public_key = λ mac. mac;
  now = 100;
  add_time = λ t d. t + 1;
  create_certificate = λ i t. some (i ∷ []);
  to_pem = λ raw. raw;
}

abbrev batch_request : GetBatchRequest
batch_request = record { count = 1; attr_request = plain_request; requested_period = pos 5 }

abbrev batch_serial : ℕ
batch_serial = big_endian 0 (0 ∷ 0 ∷ 0 ∷ 0 ∷ 0 ∷ 0 ∷ 64 ∷ 0 ∷ 128 ∷ 0 ∷ 0 ∷ 0 ∷ 0 ∷ 0 ∷ 0 ∷ 0 ∷ [])

abbrev batch : GetBatchResponse
batch = record {
  id = gen_number 20 0;
  ts = 100;
  key = codes "kdf";
  tcerts =
      record {
        cert = 0 ∷ [];
        keys =
            (
              enrollment_id_key_name,
              take 32 (hmac (hmac (codes "pre") (batch_serial ∷ [])) (codes "enrollmentID")),
            )
            ∷ [];
      }
      ∷ [];
}

get_batch-size_example :
    (length batch.tcerts ≡ (if 1 == 0 then new_mgr.max_allowed_batch_size else 1))
    × (length batch.tcerts ≤ new_mgr.max_allowed_batch_size)
unfolding get_batch batch_size issue_all issue generate_int_uuid generate_bytes_uuid big_endian
    generate_extensions attr_loop header_put build_attributes_header cbc_pkcs7_encrypt cbc_encrypt
    pkcs7_padding itoa tcert_index
get_batch-size_example =
    get_batch-size issuer new_mgr batch_request alice_name iv (codes "kdf") 0 batch (omega arith)
      refl

-- ===== src/Tests/Tokens.antt =====
-- Tokens: theorems of Token, Util and Register/Handler at concrete inputs. Base64 is the identity on texts
-- of one letter's code here, so the laws hold; a signature is the letter 1.
use copfvtci.Prelude.{
  ℕ, ◌+◌, ◌-◌, ◌≡◌, refl, sym, ap, true, Option, none, some, [], ◌∷◌, ◌++◌, map, Text, All, arith,
  codes, length, text_eq,
}
use copfvtci.Prelude.Int.{pos}
use copfvtci.Strings.SplitJoin.{Lacks, split}
use copfvtci.Strings.{to_lower}
use copfvtci.Errors.{ok}
use copfvtci.Token.{
  PublicKey, rsa, Crypto, create_token, verify_token, digest, decode_token, decode_parts, verify_by,
  get_rsa_private_key,
}
use copfvtci.Token.Soundness.{CryptoLaws, Verifies, verify_token_sound, verify_token-create_token}
use copfvtci.Util.{random_string}
use copfvtci.Util.Random.{IsLetter, has_letter, random_string_lem}
use copfvtci.Accessor.{db_registry}
use copfvtci.Register.{require_group}
use copfvtci.Register.OnDb.{registered}
use copfvtci.Register.Handler.{RegisterRequest, handle_register, handle_register_anonymous}
use copfvtci.Db.Rows.{find_row}
use copfvtci.Tests.Samples.{json, role, bob_name, db}

-- an injective code without the byte of the period
abbrev shift : Text → Text
shift = map (λ c. c + 100)

abbrev unshift : Text → Text
unshift = map (λ c. c - 100)

shift_back : (s : Text) → unshift (shift s) ≡ s
shift_back [] = refl
shift_back (c ∷ s) = let head : c + 100 - 100 ≡ c = omega arith in let tail = shift_back s in cc

shift-Lacks : (s : Text) → Lacks b'.' (shift s)
shift-Lacks [] = tt
shift-Lacks (c ∷ s) = (omega arith, shift-Lacks s)

abbrev read_pair : Text → Option (ℕ × ℕ)
read_pair [] = none
read_pair (r ∷ []) = none
read_pair (r ∷ s ∷ []) = some (r, s)
read_pair (r ∷ s ∷ t ∷ u) = none

abbrev read_some : Option Text → Option (ℕ × ℕ)
read_some none = none
read_some (some s) = read_pair s

abbrev pub crypto : PublicKey ℕ → Crypto (PublicKey ℕ) ℕ ℕ
crypto key = record {
  pem_decode = λ s. some s;
  parse_certificate = λ s. some key;
  public_key = λ x. x;
  parse_rsa_key = λ s. some 7;
  parse_ec_key = λ s. some 7;
  b64_encode = shift;
  b64_decode = λ s. some (unshift s);
  sha384 = λ s. s;
  rsa_sign = λ priv h. some (priv ∷ []);
  rsa_verify = λ k h sig. text_eq sig (k ∷ []);
  ecdsa_sign = λ priv h. some (priv, priv);
  ecdsa_verify = λ k h rs. true;
  marshal = λ rs. some (rs.0 ∷ rs.1 ∷ []);
  unmarshal = read_pair;
}

pub laws : (key : PublicKey ℕ) → CryptoLaws (crypto key)
laws key = record {
  b64_decode-b64_encode = λ s. ap some (shift_back s);
  b64_encode-Lacks = shift-Lacks;
  unmarshal-marshal = λ rs s h. sym (ap read_some h);
}

verify_token-create_token_example :
    (token : Text) × (create_token (crypto (rsa 7)) (codes "c") (codes "k") (codes "body")
      ≡ ok token)
    × (verify_token (crypto (rsa 7)) token (codes "body") ≡ ok (rsa 7))
unfolding get_rsa_private_key text_eq
verify_token-create_token_example =
    verify_token-create_token (crypto (rsa 7)) (laws (rsa 7)) (codes "c") (codes "c") (codes "k")
      (codes "body") (rsa 7) refl refl (7, refl, λ h. (7 ∷ [], refl, refl))

abbrev pub sample_token : Text
sample_token = 200 ∷ b'.' ∷ 107 ∷ []

verify_token_sound_example :
    (b64cert b64sig raw block sig : Text) × (sample_token ≡ b64cert ++ b'.' ∷ b64sig)
    × ((crypto (rsa 7)).b64_decode b64cert ≡ some raw)
    × ((crypto (rsa 7)).pem_decode raw ≡ some block)
    × ((crypto (rsa 7)).parse_certificate block ≡ some (rsa 7))
    × ((crypto (rsa 7)).b64_decode b64sig ≡ some sig)
    × Verifies (crypto (rsa 7)) (rsa 7) (digest (crypto (rsa 7)) (codes "body") b64cert) sig
unfolding verify_token decode_token decode_parts split verify_by text_eq
verify_token_sound_example =
    verify_token_sound (crypto (rsa 7)) sample_token (codes "body") (rsa 7) refl

random_string_lem_example :
    (s : Text) × (random_string (65 ∷ 7 ∷ []) 2 ≡ some s) × (length s ≡ 2) × All IsLetter s
unfolding has_letter
random_string_lem_example = random_string_lem (65 ∷ 7 ∷ []) 2 (refl, (refl, tt)) (omega arith)

abbrev one_quote : Text
one_quote = 39 ∷ []

abbrev anonymous : RegisterRequest
anonymous = record {
  user = bob_name;
  group = [];
  type = codes "auditor";
  attributes = role ∷ [];
  caller_id = [];
}

handle_register_anonymous_example :
    handle_register
      (db_registry json)
      (pos 5)
      (codes "rnd")
      (λ b. some anonymous)
      (some [])
      (some db)
    ≡ (
      ok (codes "rnd"),
      some (registered json (pos 5) (codes "rnd") bob_name (codes "auditor") [] (role ∷ []) [] db),
    )
unfolding require_group to_lower text_eq find_row
handle_register_anonymous_example =
    handle_register_anonymous json (pos 5) (codes "rnd") (λ b. some anonymous) [] anonymous db refl
      refl refl refl refl (λ n. refl)

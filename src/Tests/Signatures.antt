-- ===== src/Tests/Signatures.antt =====
-- Signatures: theorems of Util.Signing and Util.CertSpec at a JSON library whose maps are lists of paths.
use mathlib.Core.List.Permᴰ
use mathlib.Core.List.{reverse}
use copfvtci.Prelude.{
  ℕ, ◌+◌, ◌≡◌, ◌<◌, refl, true, false, Option, none, some, List, [], ◌∷◌, Text, zero, suc, ap, ◌∙◌,
  ◌++◌, ◌==◌, ==_iff, ◌||◌, ◌&&◌, length, take, drop, replicate, length-replicate, take-append,
  drop-append, All-append, text_eq, text_eq_refl, codes, arith, if◌then◌else◌,
}
use copfvtci.Prelude.Int.{pos}
use copfvtci.Errors.{finished}
use copfvtci.Accessor.{StrMap}
use copfvtci.Util.Validity.{validate_cert, sub_time}
use copfvtci.Util.Json.{Interface, string, float64, nil, Objects, read_json_as_map_string}
use copfvtci.Util.Json.Laws.{Ascii, ObjectsLaws}
use copfvtci.Util.Signing.{
  Signing, ecdsa_key, der_of, verify_ec_message_impl, verify_message, verify_ec_message,
  sign_ec_message, new_self_signed_cert,
}
use copfvtci.Util.Signing.RoundTrip.{TextLaws, verify_message-sign_ec_message}
use copfvtci.Util.Signing.Verifying.{Signed, verify_message_sound}
use copfvtci.Util.CertSpec.{CertificateSpec, hours, parse_certificate_request}

-- a map is the list of what was set, and its text has the lengths of all parts
abbrev first_value : StrMap → Text → Interface ℕ
first_value [] path = nil
first_value ((p, v) ∷ m) path = if text_eq p path then string v else first_value m path

abbrev cut : Text → Text × Text
cut [] = ([], [])
cut (n ∷ rest) = (take n rest, drop n rest)

abbrev parse : ℕ → Text → StrMap
parse zero s = []
parse (suc n) s = let (p, s') = cut s in let (v, s'') = cut s' in (p, v) ∷ parse n s''

abbrev write : StrMap → Text
write [] = []
write ((p, v) ∷ m) = length p ∷ (p ++ (length v ∷ (v ++ write m)))

abbrev read : Text → Option StrMap
read [] = none
read (n ∷ s) = some (parse n s)

abbrev objects : Objects ℕ StrMap
objects = record {
  new_map_from_json = read;
  get = first_value;
  set = λ p v m. (p, v) ∷ m;
  json = λ m. length m ∷ write m;
}

parse-write : (m : StrMap) → parse (length m) (write m) ≡ m
parse-write [] = refl
parse-write ((p, v) ∷ m) =
    rw
      (
        take-append p (length v ∷ (v ++ write m)),
        drop-append p (length v ∷ (v ++ write m)),
        take-append v (write m),
        drop-append v (write m),
        parse-write m,
      )
      refl

objects-Laws : ObjectsLaws objects
objects-Laws = record {
  Holds = λ m p v. first_value m p ≡ string v;
  get-Holds = λ m p v h. h;
  set-Holds = λ m p v. rw (text_eq_refl p) refl;
  set_other = λ m p q v w (_, _, apart, _) h. rw apart h;
  json-Holds = λ m p v ascii h. (m, ap some (parse-write m), h);
}

-- base64 in letters: each byte as so many a and a b
abbrev encode : Text → Text
encode [] = []
encode (n ∷ s) = replicate n 97 ++ 98 ∷ encode s

abbrev decode : ℕ → Text → Text
decode n [] = []
decode n (c ∷ s) = if c == 97 then decode (suc n) s else n ∷ decode 0 s

decode_letters : (k n : ℕ) (s : Text) → decode k (replicate n 97 ++ 98 ∷ s) ≡ (k + n) ∷ decode 0 s
decode_letters k zero s = ap (λ x. x ∷ decode 0 s) (omega arith)
decode_letters k (suc n) s = decode_letters (suc k) n s ∙ ap (λ x. x ∷ decode 0 s) (omega arith)

decode-encode : (s : Text) → decode 0 (encode s) ≡ s
decode-encode [] = refl
decode-encode (n ∷ s) =
    decode_letters 0 n (encode s)
    ∙ ap (λ x. x ∷ decode 0 (encode s)) (omega arith)
    ∙ ap (λ x. n ∷ x) (decode-encode s)

letters-Ascii : (n : ℕ) → Ascii (replicate n 97)
letters-Ascii zero = tt
letters-Ascii (suc n) = (omega arith, letters-Ascii n)

encode-Ascii : (s : Text) → Ascii (encode s)
encode-Ascii [] = tt
encode-Ascii (n ∷ s) =
    All-append (λ b. b < 128) (replicate n 97) (98 ∷ encode s) (letters-Ascii n)
      (omega arith, encode-Ascii s)

-- one certificate, the number 6 for the key 5, from instant 1 to 9
abbrev signing : Signing ℕ ℕ ℕ ℕ ℕ
signing = record {
  pem_decode = λ s. none;
  parse_certificates = λ s. some (6 ∷ []);
  parse_certificate = λ s. some 6;
  period = λ x. record { not_before = 1; not_after = 9 };
  public_key = λ x. ecdsa_key 5;
  parse_pkcs1 = λ s. none;
  parse_pkix = λ s. none;
  b64_decode = decode 0;
  b64_encode = encode;
  sha384 = λ s. s;
  rsa_sign = λ k h. none;
  rsa_verify = λ k h sig. false;
  ecdsa_sign = λ k h. some (k, length h);
  ecdsa_verify = λ k h (r, s). (r == k) && (s == length h);
  decimal = λ n. replicate n 97;
  number = length;
  generate_key = some 5;
  create_certificate = λ p k. some (codes "der");
}

signing-Laws : TextLaws signing objects
signing-Laws = record {
  b64_decode-b64_encode = decode-encode;
  b64_encode-Ascii = encode-Ascii;
  number-decimal = λ n. length-replicate n 97;
  decimal-Ascii = letters-Ascii;
}

verify_message-sign_ec_message_example :
    (out : Text) × (sign_ec_message signing objects 2 (λ xs. reverse xs) (codes "hi") (0 ∷ [])
      ≡ finished out)
    × (verify_message signing objects 4 (codes "hi") out ≡ finished true)
    × (verify_ec_message signing objects (codes "hi") out ≡ finished true)
unfolding new_self_signed_cert
verify_message-sign_ec_message_example =
    verify_message-sign_ec_message signing objects signing-Laws objects-Laws 2 4 (λ xs. reverse xs)
      (codes "hi") (0 ∷ []) [] 5 (codes "der") 5 6 (λ xs. Permᴰ.symm (Permᴰ.reverse xs)) refl refl
      (6, ([], refl), refl, (omega arith, omega arith)) refl refl
      (λ h. ((5, length h), refl, (==_iff (length h) (length h)).1 refl))

abbrev signed : Text
signed = objects.json (
    (codes "ECSignature.R", replicate 5 97)
    ∷ (codes "ECSignature.S", replicate 2 97)
    ∷ (codes "Certificate", encode (codes "c"))
    ∷ [])

accepted : verify_message signing objects 4 (codes "hi") signed ≡ finished true
unfolding verify_message verify_ec_message_impl read_json_as_map_string validate_cert sub_time
    text_eq
accepted = refl

verify_message_sound_example :
    (ecert : Text) × (x : ℕ) × (read_json_as_map_string objects signed (codes "Certificate")
      ≡ finished ecert)
    × ((rest : List ℕ) × (signing.parse_certificates
            (der_of signing objects (signing.b64_decode ecert))
          ≡ some (x ∷ rest)))
    × (((signing.period x).not_before < 4) × (4 < (signing.period x).not_after))
    × Signed signing objects (codes "hi") signed (signing.public_key x)
verify_message_sound_example = verify_message_sound signing objects 4 (codes "hi") signed accepted

-- a request that asks for a day
abbrev request : Objects ℕ (Unit {0})
request = record {
  new_map_from_json = λ s. some tt;
  get = λ m path.
      if text_eq path (codes "TCertBatchRequest.CerificateRequestData.validityPeriod")
        || text_eq path (codes "TCertBatchRequest.CertificateType")
      then float64 24
      else string (codes "x");
  set = λ p v m. m;
  json = λ m. [];
}

abbrev day : CertificateSpec ℕ ℕ ℕ ℕ
day = record {
  common_name = codes "x";
  serial_number = 1;
  public_key = none;
  usage = 0;
  not_before = 100;
  not_after = 86400000000100;
  ext = some [];
  country = codes "x";
  state = codes "x";
  locality = codes "x";
  organization = codes "x";
  organization_unit = codes "x";
  certificate_type = 24;
}

day_requested :
    parse_certificate_request request (λ f. pos f) 100 (codes "{}") 1 none 0 [] ≡ finished day
unfolding parse_certificate_request hours text_eq
day_requested = refl

-- ===== src/Tests/Certificates.antt =====
-- Certificates: theorems of TCert.Loading, Util.Signing and Util.CertSpec at small libraries.
use copfvtci.Prelude.{ℕ, ◌≡◌, ◌↔◌, refl, none, some, [], ◌∷◌, Text, codes}
use copfvtci.Errors.{Result, ok, finished, crashed, exited}
use copfvtci.KeyTree.Cache.{IsValid}
use copfvtci.TCert.Batch.{new_mgr}
use copfvtci.TCert.Loading.{
  Parsers, ecdsa_key, der_of, get_certificate, TCertHandlerState, init_tcert_handler,
}
use copfvtci.TCert.Loading.{load_mgr, load_key, load_cert, get_private_key, parse_private_key}
use copfvtci.Util.Validity.{validate_cert, sub_time}
use copfvtci.TCert.Loading.Parsed.{Current, Accepted, get_certificate_lem, init_tcert_handler_lem}

-- certificates are numbers, and every text is the first one's
abbrev parsers : Parsers ℕ ℕ ℕ
parsers = record {
  pem_decode = λ s. none;
  parse_certificates = λ s. some (3 ∷ 4 ∷ []);
  period = λ x. record { not_before = x; not_after = 9 };
  serial_number = λ x. x;
  parse_pkcs1 = λ s. none;
  parse_pkcs8 = λ s. none;
  parse_ec = λ s. some 5;
  read_file = λ f. some f;
}

get_certificate_lem_example :
    ((x : ℕ)
      → (get_certificate parsers 7 (codes "ca") ≡ finished x) ↔ Current parsers 7 (codes "ca") x)
    × ((get_certificate parsers 7 (codes "ca") ≡ crashed)
        ↔ (parsers.parse_certificates (der_of parsers 7 (codes "ca")) ≡ some []))
    × ((get_certificate parsers 7 (codes "ca") ≡ exited) ↔ (
        (block : Text) × (parsers.pem_decode (codes "ca") ≡ some block)
        × (parsers.parse_certificates block ≡ none)))
get_certificate_lem_example = get_certificate_lem parsers 7 (codes "ca")

abbrev handler : TCertHandlerState parsers 7 ℕ
handler = record {
  ca_key = ecdsa_key 5;
  ca_cert = 3;
  mgr = new_mgr;
  key_tree = record { root_key = 8; keys = [] };
}

abbrev csp : Result ℕ
csp = ok 1

abbrev gen_key : ℕ → Result ℕ
gen_key c = ok 8

starts :
    init_tcert_handler parsers 7 csp gen_key (codes "key.pem") (codes "ca.pem") ≡ finished handler
unfolding init_tcert_handler load_mgr load_key load_cert get_private_key parse_private_key
    get_certificate validate_cert sub_time
starts = refl

init_tcert_handler_lem_example :
    ((buf : Text) × (parsers.read_file (codes "key.pem") ≡ some buf)
      × Accepted parsers 7 (der_of parsers 7 buf) handler.ca_key)
    × ((buf : Text) × (parsers.read_file (codes "ca.pem") ≡ some buf)
        × Current parsers 7 buf handler.ca_cert)
    × (handler.mgr ≡ new_mgr)
    × ((c : ℕ) × (root : ℕ) × (csp ≡ ok c)
        × (gen_key c ≡ ok root)
        × IsValid (λ k child. some k) root handler.key_tree)
init_tcert_handler_lem_example =
    init_tcert_handler_lem parsers 7 csp gen_key (λ k child. some k) (codes "key.pem")
      (codes "ca.pem") handler starts

-- ===== src/TCert/Loading.antt =====
-- Certificates and private keys from bytes and from files: GetCertificate to LoadKey of lib/tcert/util.go,
-- LoadMgr and NewMgr of tcert.go, and initTCertHandler of cli/server/tcert.go with GetBCCSP and GenRootKey
-- of util/bccsp.go. PEM, X.509, the parsers of keys, the file system, the clock and BCCSP are parameters.
pub mod Parsed
use copfvtci.Prelude.{ℕ, Bool, true, false, Option, none, some, List, [], ◌∷◌, Text, if◌then◌else◌}
use copfvtci.Prelude.Int.{ℤ, pos, negsuc}
use copfvtci.Errors.{
  Error, Result, ok, err, library_error, Run, finished, errored, crashed, exited, then_run, run_of,
}
use copfvtci.Util.Validity.{Period, validate_cert}
use copfvtci.KeyTree.{KeyTree, new_key_tree}
use copfvtci.TCert.Batch.{Mgr, new_mgr}

-- what x509's parsers make of a private key: the two kinds that the source tells apart, and any other
pub data PrivateKey (Rsa Ec : Type 0) : Type 0 where
  rsa_key : Rsa → PrivateKey Rsa Ec
  ecdsa_key : Ec → PrivateKey Rsa Ec
  other_key : PrivateKey Rsa Ec

pub record Parsers (Cert Rsa Ec : Type 0) : Type 0 where
  pub pem_decode : Text → Option Text
  -- x509.ParseCertificates; no certificates are in no bytes
  pub parse_certificates : Text → Option (List Cert)
  pub period : Cert → Period
  pub serial_number : Cert → ℕ
  pub parse_pkcs1 : Text → Option Rsa
  pub parse_pkcs8 : Text → Option (PrivateKey Rsa Ec)
  pub parse_ec : Text → Option Ec
  -- ioutil.ReadFile
  pub read_file : Text → Option Text

abbrev pub read_or_error : Option Text → Run Text
read_or_error none = errored library_error
read_or_error (some buf) = finished buf

module _ {Cert Rsa Ec : Type 0} (lib : Parsers Cert Rsa Ec) (now : ℕ) where
  -- certificates[0]
  abbrev pub first_valid : List Cert → Run Cert
  first_valid [] = crashed
  first_valid (x ∷ xs) =
      if validate_cert now (lib.period x) then finished x else errored library_error

  abbrev pub parsed : Run Cert → Option (List Cert) → Run Cert
  parsed refused none = refused
  parsed refused (some certs) = first_valid certs

  abbrev of_block : Text → Option Text → Run Cert
  of_block buf none = parsed (errored library_error) (lib.parse_certificates buf)
  of_block buf (some block) = parsed exited (lib.parse_certificates block)

  -- GetCertificate; log.Fatal ends the process where a PEM block does not parse
  unfoldable pub get_certificate : Text → Run Cert
  get_certificate buf = of_block buf (lib.pem_decode buf)

  -- GetCertitificateSerialNumber: the number, -1 beside an error, and the error
  abbrev numbered : Run Cert → Run (ℤ × Option Error)
  numbered (finished x) = finished (pos (lib.serial_number x), none)
  numbered (errored e) = finished (negsuc 0, some e)
  numbered crashed = crashed
  numbered exited = exited

  unfoldable pub get_certificate_serial_number : Text → Run (ℤ × Option Error)
  get_certificate_serial_number buf = numbered (get_certificate buf)

  abbrev pub ec_or_error : Option Ec → Result (PrivateKey Rsa Ec)
  ec_or_error none = err library_error
  ec_or_error (some k) = ok (ecdsa_key k)

  -- the type switch on a key
  abbrev supported : PrivateKey Rsa Ec → Result (PrivateKey Rsa Ec)
  supported (rsa_key k) = ok (rsa_key k)
  supported (ecdsa_key k) = ok (ecdsa_key k)
  supported other_key = err library_error

  abbrev pub pkcs8_or_ec : Text → Option (PrivateKey Rsa Ec) → Result (PrivateKey Rsa Ec)
  pkcs8_or_ec der none = ec_or_error (lib.parse_ec der)
  pkcs8_or_ec der (some k) = supported k

  abbrev pub pkcs1_or : Text → Option Rsa → Result (PrivateKey Rsa Ec)
  pkcs1_or der none = pkcs8_or_ec der (lib.parse_pkcs8 der)
  pkcs1_or der (some k) = ok (rsa_key k)

  unfoldable pub parse_private_key : Text → Result (PrivateKey Rsa Ec)
  parse_private_key der = pkcs1_or der (lib.parse_pkcs1 der)

  -- the bytes of the PEM block, or all of them if there is none
  abbrev pub der_of : Text → Text
  der_of buf = elim (lib.pem_decode buf) [ none ↦ buf | some block ↦ block ]

  abbrev pub and_supported : Result (PrivateKey Rsa Ec) → Result (PrivateKey Rsa Ec)
  and_supported (err e) = err library_error
  and_supported (ok k) = supported k

  -- GetPrivateKey
  unfoldable pub get_private_key : Text → Result (PrivateKey Rsa Ec)
  get_private_key buf = and_supported (parse_private_key (der_of buf))

  unfoldable pub load_cert : Text → Run Cert
  load_cert path = then_run (read_or_error (lib.read_file path)) get_certificate

  unfoldable pub load_key : Text → Run (PrivateKey Rsa Ec)
  load_key path =
      then_run (read_or_error (lib.read_file path)) (λ buf. run_of (get_private_key buf))

  -- LoadMgr, with the CA's key and certificate beside what NewMgr sets
  unfoldable pub load_mgr : Text → Text → Run (PrivateKey Rsa Ec × Cert × Mgr)
  load_mgr key_file cert_file =
      then_run (load_key key_file)
        λ key. then_run (load_cert cert_file) λ cert. finished (key, cert, new_mgr)

  -- the fields of a tcertHandler
  pub record TCertHandlerState (K : Type 0) : Type 0 where
    pub ca_key : PrivateKey Rsa Ec
    pub ca_cert : Cert
    pub mgr : Mgr
    pub key_tree : KeyTree K

  -- initTCertHandler: `csp` is the default BCCSP, and `gen_key` its generator of root keys
  unfoldable pub init_tcert_handler :
      {K Csp : Type 0} → Result Csp → (Csp → Result K) → Text → Text → Run (TCertHandlerState K)
  init_tcert_handler csp gen_key key_file ca_file = then_run (run_of csp) λ csp.
      then_run (load_mgr key_file ca_file) λ (key, cert, mgr).
        then_run (run_of (gen_key csp)) λ root.
          finished
            (record { ca_key = key; ca_cert = cert; mgr = mgr; key_tree = new_key_tree root })

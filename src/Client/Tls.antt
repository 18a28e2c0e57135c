-- ===== src/Client/Tls.antt =====
-- lib/tls/tls.go, and how SendPost of lib/client.go comes to its TLS configuration. The file system,
-- encoding/json, tls.LoadX509KeyPair and the parser of PEM certificates are parameters.
pub mod Roots
use copfvtci.Prelude.{◌++◌, Option, none, some, List, [], ◌∷◌, Text, codes}
use copfvtci.Errors.{Error, Result, ok, err, cop_error, tls_error, library_error}

-- ClientTLSConfig, with its KeyCertFiles
pub record ClientTlsConfig : Type 0 where
  pub ca_cert_files : List Text
  pub key_file : Text
  pub cert_file : Text

pub record TlsLib (Cert Pair : Type 0) : Type 0 where
  -- filepath.Join of two names, and ioutil.ReadFile
  pub join : Text → Text → Text
  pub read_file : Text → Option Text
  -- json.Unmarshal into a new ClientTLSConfig, as it leaves it, with an error or without
  pub unmarshal : Text → ClientTlsConfig
  pub load_key_pair : Text → Text → Option Pair
  -- the certificates that AppendCertsFromPEM finds in a text; it reports whether there are any
  pub certs_in : Text → List Cert

-- tls.Config: its certificates (`none` is the zero value) and its roots
pub record TlsConfig (Cert Pair : Type 0) : Type 0 where
  pub certificates : List (Option Pair)
  pub root_cas : List Cert

module _ {Cert Pair : Type 0} (lib : TlsLib Cert Pair) where
  -- one round of the loop over the CA files
  abbrev pub appended :
      List Cert → List Cert → (List Cert → Result (List Cert)) → Result (List Cert)
  appended pool [] rest = err (cop_error tls_error)
  appended pool (x ∷ xs) rest = rest (pool ++ x ∷ xs)

  abbrev pub with_file : Option Text → (Text → Result (List Cert)) → Result (List Cert)
  with_file none rest = err library_error
  with_file (some pem) rest = rest pem

  unfoldable pub ca_pool : List Text → List Cert → Result (List Cert)
  ca_pool [] pool = ok pool
  ca_pool (file ∷ files) pool =
      with_file (lib.read_file file)
        λ pem. appended pool (lib.certs_in pem) (λ pool'. ca_pool files pool')

  abbrev pub configured : Option Pair → Result (List Cert) → Result (TlsConfig Cert Pair)
  configured pair (ok pool) = ok (record { certificates = pair ∷ []; root_cas = pool })
  configured pair (err e) = err e

  -- GetClientTLSConfig; a key pair that does not load is only logged
  unfoldable pub get_client_tls_config : ClientTlsConfig → Result (TlsConfig Cert Pair)
  get_client_tls_config cfg =
      configured (lib.load_key_pair cfg.cert_file cfg.key_file) (ca_pool cfg.ca_cert_files [])

  abbrev or_error : Option Text → Result Text
  or_error none = err library_error
  or_error (some buf) = ok buf

  -- getClientConfig
  unfoldable pub get_client_config : Text → Result Text
  get_client_config home = or_error (lib.read_file (lib.join home (codes "cop_client.json")))

  abbrev pub bytes_of : Result Text → Text
  bytes_of (ok buf) = buf
  bytes_of (err e) = []

  abbrev pub or_nil : {A : Type 0} → Result A → Option A
  or_nil (ok a) = some a
  or_nil (err e) = none

  -- the TLSClientConfig of SendPost's transport, for a client's home directory. Errors are only logged;
  -- with `none`, a nil configuration, the transport takes the roots of the system.
  unfoldable pub transport_config : Text → Option (TlsConfig Cert Pair)
  transport_config home =
      or_nil (get_client_tls_config (lib.unmarshal (bytes_of (get_client_config home))))

-- ===== src/Client/Files.antt =====
-- The identity that lib/client.go keeps on disk, with ReadFile, WriteFile, GetDefaultHomeDir and
-- GetEnrollmentIDFromPEM of util/util.go. The file system is the state: the files it holds and the paths
-- that it refuses to write. path.Join and the environment are parameters.
use copfvtci.Prelude.{
  ◌≡◌, ◌≢◌, sym, Bool, false, not, Option, none, some, List, [], ◌∷◌, Text, text_eq, text_eq_iff,
  text_eq_refl, codes, is_empty, inl, inr, Bool-cases, if◌then◌else◌,
}
use copfvtci.Errors.{
  Result, ok, err, Method, ◌>>=◌, ◌>>◌, lift, cop_error, read_file_error, write_file_error,
}
use copfvtci.Token.{Crypto, checked}
use copfvtci.Client.Http.{Client}
use copfvtci.Client.Identity.{Identity, new_identity}

pub record Env : Type 0 where
  -- os.Getenv, "" if it is not set
  pub getenv : Text → Text
  pub join : Text → Text → Text

pub record Disk : Type 0 where
  pub refuses : Text → Bool
  pub files : List (Text × Text)

unfoldable pub content : Text → List (Text × Text) → Option Text
content file [] = none
content file ((f, buf) ∷ files) = if text_eq f file then some buf else content file files

abbrev read_result : Option Text → Result Text
read_result none = err (cop_error read_file_error)
read_result (some buf) = ok buf

-- ReadFile
unfoldable pub read_file : Text → Method Disk Text
read_file file d = (read_result (content file d.files), d)

-- WriteFile; the permissions are not kept
unfoldable pub write_file : Text → Text → Method Disk (Unit {0})
write_file file buf d =
    if d.refuses file
    then (err (cop_error write_file_error), d)
    else (ok tt, record d { files = (file, buf) ∷ d.files })

module _ (env : Env) where
  -- GetDefaultHomeDir
  unfoldable pub get_default_home_dir : Text
  get_default_home_dir =
      if not (is_empty (env.getenv (codes "COP_HOME")))
      then env.getenv (codes "COP_HOME")
      else if not (is_empty (env.getenv (codes "HOME")))
      then env.join (env.getenv (codes "HOME")) (codes "/cop")
      else codes "/var/hyperledger/fabric/dev/fabric-cop"

  -- NewClient; `override` is util.Unmarshal of the configuration into the defaults
  unfoldable pub new_client : (Text → Client → Option Client) → Text → Result Client
  new_client override config =
      let defaults : Client = record {
        server_url = codes "http://localhost:8888";
        home_dir = get_default_home_dir;
      } in
      if is_empty config then ok defaults else checked (override config defaults) (λ c. ok c)

  unfoldable pub get_my_enrollment_dir : Client → Text
  get_my_enrollment_dir c =
      if is_empty (env.getenv (codes "COP_ENROLLMENT_DIR"))
      then c.home_dir
      else env.getenv (codes "COP_ENROLLMENT_DIR")

  unfoldable pub get_my_key_file : Client → Text
  get_my_key_file c =
      if is_empty (env.getenv (codes "COP_KEY_FILE"))
      then env.join (get_my_enrollment_dir c) (codes "key.pem")
      else env.getenv (codes "COP_KEY_FILE")

  unfoldable pub get_my_cert_file : Client → Text
  get_my_cert_file c =
      if is_empty (env.getenv (codes "COP_CERT_FILE"))
      then env.join (get_my_enrollment_dir c) (codes "cert.pem")
      else env.getenv (codes "COP_CERT_FILE")

  unfoldable pub store_my_identity : Client → Text → Text → Method Disk (Unit {0})
  store_my_identity c key cert = do
    write_file (get_my_key_file c) key
    write_file (get_my_cert_file c) cert

  -- Identity.Store; the slices of an identity that has a client
  abbrev text_of : Option Text → Text
  text_of none = []
  text_of (some s) = s

  unfoldable pub store : Identity → Method Disk (Unit {0})
  store i = store_my_identity i.client (text_of i.key) (text_of i.cert)

  module _ {Cert Pub Priv : Type 0} (c : Crypto Cert Pub Priv) (common_name : Cert → Text) where
    -- GetEnrollmentIDFromPEM, through GetX509CertificateFromPEM
    unfoldable pub get_enrollment_id_from_pem : Text → Result Text
    get_enrollment_id_from_pem cert =
        checked (c.pem_decode cert)
          λ block. checked (c.parse_certificate block) λ x. ok (common_name x)

    abbrev named : Client → Text → Text → Result Text → Result Identity
    named client key cert (err e) = err e
    named client key cert (ok name) = ok (new_identity client name (some key) (some cert))

    -- NewIdentity
    unfoldable pub identity_from : Client → Text → Text → Result Identity
    identity_from client key cert = named client key cert (get_enrollment_id_from_pem cert)

    unfoldable pub load_identity : Client → Text → Text → Method Disk Identity
    load_identity client key_file cert_file = do
      key ← read_file key_file
      cert ← read_file cert_file
      lift (identity_from client key cert)

    unfoldable pub load_my_identity : Client → Method Disk Identity
    load_my_identity client =
        load_identity client (get_my_key_file client) (get_my_cert_file client)

    -- What StoreMyIdentity writes, LoadMyIdentity reads back: an identity with the key and the
    -- certificate, named by the certificate's common name. The key and the certificate have different
    -- files, both can be written, and the certificate decodes.
    pub load_my_identity-store_my_identity :
        (client : Client) (key cert block : Text) (x : Cert) (d : Disk)
        → get_my_key_file client ≢ get_my_cert_file client
        → d.refuses (get_my_key_file client) ≡ false
        → d.refuses (get_my_cert_file client) ≡ false
        → c.pem_decode cert ≡ some block
        → c.parse_certificate block ≡ some x
        → ((do store_my_identity client key cert; load_my_identity client) d).0
          ≡ ok (new_identity client (common_name x) (some key) (some cert))
    unfolding store_my_identity load_my_identity load_identity read_file write_file content
        identity_from get_enrollment_id_from_pem
    load_my_identity-store_my_identity client key cert block x d differ key_ok cert_ok pem parse =
        elim (Bool-cases (text_eq (get_my_cert_file client) (get_my_key_file client))) [
          | inl e ↦
              absurd (
                differ (sym ((text_eq_iff (get_my_cert_file client) (get_my_key_file client)).0 e)))
          | inr e ↦
              rw (key_ok, cert_ok)
                (rw (
                  e,
                  text_eq_refl (get_my_key_file client),
                  text_eq_refl (get_my_cert_file client),
                  pem,
                  parse,
                ))
        ]

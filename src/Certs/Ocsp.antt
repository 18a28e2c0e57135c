-- ===== src/Certs/Ocsp.antt =====
-- The rest of cli/server/certdbaccessor.go, with InitCertificateAccessor of factory.go: the object, its handle
-- on the database and the calls for OCSP records that it hands on to CFSSL's accessor.
use copfvtci.Prelude.{ℕ, Option, none, some, List, Text}
use copfvtci.Errors.{Result, ok, err, Method, library_error}

-- certdb.OCSPRecord
pub record OcspRecord : Type 0 where
  pub serial : Text
  pub aki : Text
  pub body : Text
  pub expiry : ℕ

-- the part of certdb.Accessor for OCSP records
pub record OcspAccessor (S : Type 0) : Type 0 where
  pub insert_ocsp : OcspRecord → Method S (Unit {0})
  pub get_ocsp : Text → Text → Method S (List OcspRecord)
  pub get_unexpired_ocsps : Method S (List OcspRecord)
  pub update_ocsp : Text → Text → Text → ℕ → Method S (Unit {0})
  pub upsert_ocsp : Text → Text → Text → ℕ → Method S (Unit {0})

-- CertDBAccessor; `none` is a nil handle
pub record CertDbAccessor (S Handle : Type 0) : Type 0 where
  pub accessor : OcspAccessor S
  pub db : Option Handle

module _ {S Handle : Type 0} where
  -- NewCertDBAccessor, and InitCertificateAccessor, which keeps it in certDBAccessor
  unfoldable pub new_cert_db_accessor :
      (Option Handle → OcspAccessor S) → Option Handle → CertDbAccessor S Handle
  new_cert_db_accessor new_accessor db = record { accessor = new_accessor db; db = db }

  unfoldable pub init_certificate_accessor :
      (Option Handle → OcspAccessor S)
      → Option Handle
      → Option (CertDbAccessor S Handle)
      → CertDbAccessor S Handle × Option (CertDbAccessor S Handle)
  init_certificate_accessor new_accessor db old =
      let made = new_cert_db_accessor new_accessor db in (made, some made)

  unfoldable pub check_db : CertDbAccessor S Handle → Result (Unit {0})
  check_db d = elim d.db [ none ↦ err library_error | some handle ↦ ok tt ]

  -- SetDB, which leaves CFSSL's accessor on the old handle
  unfoldable pub set_db : Option Handle → CertDbAccessor S Handle → CertDbAccessor S Handle
  set_db handle d = record d { db = handle }

  unfoldable pub insert_ocsp : CertDbAccessor S Handle → OcspRecord → Method S (Unit {0})
  insert_ocsp d = d.accessor.insert_ocsp

  unfoldable pub get_ocsp : CertDbAccessor S Handle → Text → Text → Method S (List OcspRecord)
  get_ocsp d = d.accessor.get_ocsp

  unfoldable pub get_unexpired_ocsps : CertDbAccessor S Handle → Method S (List OcspRecord)
  get_unexpired_ocsps d = d.accessor.get_unexpired_ocsps

  unfoldable pub update_ocsp :
      CertDbAccessor S Handle → Text → Text → Text → ℕ → Method S (Unit {0})
  update_ocsp d = d.accessor.update_ocsp

  unfoldable pub upsert_ocsp :
      CertDbAccessor S Handle → Text → Text → Text → ℕ → Method S (Unit {0})
  upsert_ocsp d = d.accessor.upsert_ocsp

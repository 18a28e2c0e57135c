-- ===== src/Certs.antt =====
-- cli/server/certdbaccessor.go: the certificate records of the server's database. The calls that it hands
-- on to CFSSL's own accessor, and the enrollment id that it reads from a PEM text, are parameters.
pub mod ById
pub mod Ocsp
use copfvtci.Prelude.{
  ℕ, ◌+◌, Bool, true, false, Option, none, some, List, [], ◌∷◌, Text, text_eq, if◌then◌else◌,
}
use copfvtci.Prelude.Int.{ℤ}
use copfvtci.Errors.{
  Error, Result, ok, err, Method, ◌>>=◌, ◌>>◌, pure, raise, lift, unknown_db, library_error,
  cop_error, database_error,
}
use copfvtci.Db.{
  Db, Tables, CertRecord, insert_cert_row, revoke_cert_rows, unrevoked_of, exec, query,
}
use copfvtci.Db.Rows.{select_rows}
use copfvtci.Accessor.{one_row}

-- certdb.CertificateRecord: a CertRecord without its id
pub record CertificateRecord : Type 0 where
  pub serial : Text
  pub aki : Text
  pub ca_label : Text
  pub status : Text
  pub reason : ℤ
  pub expiry : ℕ
  pub revoked_at : ℕ
  pub pem : Text

-- CFSSL's accessor (certsql.NewAccessor), as far as it is called
pub record CfsslAccessor : Type 0 where
  pub get_certificate : Text → Text → Method Db (List CertificateRecord)
  pub get_unexpired_certificates : Method Db (List CertificateRecord)
  pub revoke_certificate : Text → Text → ℤ → Method Db (Unit {0})

-- the record that InsertCertificate writes
abbrev pub cert_record : Text → CertificateRecord → CertRecord
cert_record id cr = record {
  id = id;
  serial = cr.serial;
  aki = cr.aki;
  ca_label = cr.ca_label;
  status = cr.status;
  reason = cr.reason;
  expiry = cr.expiry;
  revoked_at = cr.revoked_at;
  pem = cr.pem;
}

abbrev found_id : Option Text → Result Text
found_id none = err library_error
found_id (some id) = ok id

-- `pem_id` is util.GetEnrollmentIDFromPEM
unfoldable pub insert_certificate : (Text → Option Text) → CertificateRecord → Method Db (Unit {0})
insert_certificate pem_id cr = do
  id ← lift (found_id (pem_id cr.pem))
  rows ← exec true (insert_cert_row (cert_record id cr))
  one_row (cop_error database_error) rows

unfoldable pub get_certificates_by_id : Text → Method Db (List CertRecord)
get_certificates_by_id id = query (λ t. ok (select_rows (λ c. text_eq c.id id) t.certificates))

unfoldable pub revoke_certificates_by_id : Text → ℤ → Method Db (List CertRecord)
revoke_certificates_by_id id reason = do
  crs ← query (λ t. ok (select_rows (unrevoked_of id) t.certificates))
  exec true (revoke_cert_rows reason id)
  pure crs

-- GetCertificate, GetUnexpiredCertificates and RevokeCertificate hand on to CFSSL.
abbrev pub get_certificate : CfsslAccessor → Text → Text → Method Db (List CertificateRecord)
get_certificate acc serial aki = acc.get_certificate serial aki

abbrev pub get_unexpired_certificates : CfsslAccessor → Method Db (List CertificateRecord)
get_unexpired_certificates acc = acc.get_unexpired_certificates

abbrev pub revoke_certificate : CfsslAccessor → Text → Text → ℤ → Method Db (Unit {0})
revoke_certificate acc serial aki reason = acc.revoke_certificate serial aki reason

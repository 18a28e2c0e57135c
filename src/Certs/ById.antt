-- ===== src/Certs/ById.antt =====
-- InsertCertificate, GetCertificatesByID and RevokeCertificatesByID of cli/server/certdbaccessor.go together.
use copfvtci.Prelude.{
  ℕ, ◌+◌, ◌≡◌, refl, ap, ◌∙◌, Bool, true, false, Option, none, some, List, [], ◌∷◌, ◌++◌, map, Text,
  text_eq, text_eq_refl, codes, not, ◌&&◌, arith, if◌then◌else◌,
}
use copfvtci.Prelude.Int.{ℤ}
use copfvtci.Errors.{ok, ◌>>◌}
use copfvtci.Db.{
  Db, Tables, CertRecord, unrevoked_of, revoke_row, revoked, cert_is, exec, query, effect, violates,
  affected,
}
use copfvtci.Db.Rows.{find_row, select_rows, update_rows}
use copfvtci.Certs.{
  CertificateRecord, cert_record, insert_certificate, get_certificates_by_id,
  revoke_certificates_by_id,
}

-- a certificate of the id whose status is not yet 'revoked'
abbrev pub is_live : Text → CertRecord → Bool
is_live id c = text_eq c.id id && not (text_eq c.status (codes "revoked"))

-- the row that a revocation of `id` leaves of a row
abbrev pub revoked_row : Text → ℤ → ℕ → CertRecord → CertRecord
revoked_row id reason now c =
    if is_live id c
    then record {
      id = c.id;
      serial = c.serial;
      aki = c.aki;
      ca_label = c.ca_label;
      status = codes "revoked";
      reason = reason;
      expiry = c.expiry;
      revoked_at = now;
      pem = c.pem;
    }
    else c

module _ (id : Text) (reason : ℤ) (now : ℕ) where
  revoke_all :
      (cs : List CertRecord)
      → select_rows (unrevoked_of id) (update_rows (unrevoked_of id) (revoke_row reason now) cs)
        ≡ []
  unfolding select_rows update_rows
  revoke_all [] = refl
  revoke_all (c ∷ cs) = ground (arith, revoke_all cs, text_eq_refl revoked)

  -- rows are not added, dropped or reordered, and each is changed as `revoked_row` says
  revoke_rows :
      (cs : List CertRecord)
      → update_rows (unrevoked_of id) (revoke_row reason now) cs
        ≡ map (revoked_row id reason now) cs
  unfolding update_rows
  revoke_rows [] = refl
  revoke_rows (c ∷ cs) = ap (λ t. revoked_row id reason now c ∷ t) (revoke_rows cs)

  revoke_none :
      (cs : List CertRecord)
      → select_rows (unrevoked_of id) cs ≡ []
      → update_rows (unrevoked_of id) (revoke_row reason now) cs ≡ cs
  unfolding select_rows update_rows
  revoke_none [] h = refl
  revoke_none (c ∷ cs) h = ground (arith, revoke_none cs)

revoke_certificates_by_id-up :
    (id : Text) (reason : ℤ) (db : Db)
    → db.down db.clock ≡ false
    → db.down (db.clock + 1) ≡ false
    → ((revoke_certificates_by_id id reason db).0 ≡ ok (select_rows (is_live id) db.certificates))
      × ((revoke_certificates_by_id id reason db).1.tables ≡ record db.tables {
        certificates =
            update_rows
              (unrevoked_of id)
              (revoke_row reason (db.time (db.clock + 1)))
              db.certificates;
      })
unfolding revoke_certificates_by_id query exec violates effect
revoke_certificates_by_id-up id reason db up up' = ground arith

-- On an engine that answers, a revocation by id returns the id's certificates that were not revoked, and
-- changes exactly those rows: each gets the status 'revoked', the given reason and the engine's time as its
-- time of revocation, and keeps its other columns. None that is not revoked is left under the id.
pub revoke_certificates_by_id_lem :
    (id : Text) (reason : ℤ) (db : Db)
    → db.down db.clock ≡ false
    → db.down (db.clock + 1) ≡ false
    → ((revoke_certificates_by_id id reason db).0 ≡ ok (select_rows (is_live id) db.certificates))
      × ((revoke_certificates_by_id id reason db).1.certificates
          ≡ map (revoked_row id reason (db.time (db.clock + 1))) db.certificates)
      × (select_rows (is_live id) (revoke_certificates_by_id id reason db).1.certificates ≡ [])
revoke_certificates_by_id_lem id reason db up up' =
    let (result, tables) = revoke_certificates_by_id-up id reason db up up' in
    let written = ap (λ (t : Tables). t.certificates) tables in
    (
      result,
      written ∙ revoke_rows id reason (db.time (db.clock + 1)) db.certificates,
      ap (λ cs. select_rows (is_live id) cs) written
          ∙ revoke_all id reason (db.time (db.clock + 1)) db.certificates,
    )

-- Where no certificate of the id is left to revoke, another revocation by id returns none and changes
-- no row: the first reason and time stay.
pub revoke_certificates_by_id_again :
    (id : Text) (reason : ℤ) (db : Db)
    → db.down db.clock ≡ false
    → db.down (db.clock + 1) ≡ false
    → select_rows (unrevoked_of id) db.certificates ≡ []
    → ((revoke_certificates_by_id id reason db).0 ≡ ok [])
      × ((revoke_certificates_by_id id reason db).1.certificates ≡ db.certificates)
revoke_certificates_by_id_again id reason db up up' empty =
    let (result, tables) = revoke_certificates_by_id-up id reason db up up' in
    (
      result ∙ ap ok empty,
      ap (λ (t : Tables). t.certificates) tables
          ∙ revoke_none id reason (db.time (db.clock + 1)) db.certificates empty,
    )

select_rows-append_one :
    (p : CertRecord → Bool) (cs : List CertRecord) (c : CertRecord)
    → p c ≡ true
    → select_rows p (cs ++ c ∷ []) ≡ select_rows p cs ++ c ∷ []
unfolding select_rows
select_rows-append_one p [] c h = rw h
select_rows-append_one p (d ∷ cs) c h = ground (arith, select_rows-append_one p cs c)

insert_certificate-row :
    (pem_id : Text → Option Text) (cr : CertificateRecord) (id : Text) (db : Db)
    → pem_id cr.pem ≡ some id
    → find_row (cert_is cr.serial cr.aki) db.certificates ≡ none
    → db.down db.clock ≡ false
    → insert_certificate pem_id cr db ≡ (
      ok tt,
      record db {
        clock = db.clock + 1;
        tables = record db.tables { certificates = db.certificates ++ cert_record id cr ∷ [] };
      },
    )
unfolding insert_certificate exec violates effect affected
insert_certificate-row pem_id cr id db named fresh up = rw (named, up, fresh) (ground arith)

-- A certificate whose serial and authority key are new, and whose PEM names `id`, is stored and comes
-- last among the certificates of its id.
pub insert_certificate-get_certificates_by_id :
    (pem_id : Text → Option Text) (cr : CertificateRecord) (id : Text) (db : Db)
    → pem_id cr.pem ≡ some id
    → find_row (cert_is cr.serial cr.aki) db.certificates ≡ none
    → db.down db.clock ≡ false
    → db.down (db.clock + 1) ≡ false
    → ((do insert_certificate pem_id cr; get_certificates_by_id id) db).0
      ≡ ok (select_rows (λ c. text_eq c.id id) db.certificates ++ cert_record id cr ∷ [])
unfolding get_certificates_by_id query
insert_certificate-get_certificates_by_id pem_id cr id db named fresh up up' =
    rw (insert_certificate-row pem_id cr id db named fresh up, up')
      (ap ok (
        select_rows-append_one (λ c. text_eq c.id id) db.certificates (cert_record id cr)
          (text_eq_refl id)))

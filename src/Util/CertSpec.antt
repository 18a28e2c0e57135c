-- ===== src/Util/CertSpec.antt =====
-- util/certificate.go: the specification of a certificate and the certificate that is made from it, and
-- parseCertificateRequest of util/jsonprocessor.go, which reads one. The conversions of a float64, the keys
-- and x509.CreateCertificate are parameters. An instant is the number of nanoseconds since a fixed one.
pub mod Periods
use copfvtci.Prelude.{
  ℕ, ◌+◌, ◌-◌, ◌*◌, ◌%◌, ◌^◌, Bool, true, false, not, Option, none, some, List, [], ◌∷◌, Text,
  codes, ltb, is_empty, if◌then◌else◌,
}
use copfvtci.Prelude.Int.{ℤ, pos, negsuc}
use copfvtci.Errors.{Error, library_error, Run, finished, errored, crashed, then_run}
use copfvtci.Util.Json.{Interface, Objects, get_from, as_string, as_float64}

pub record CertificateSpec (Pub Usage Ext F : Type 0) : Type 0 where
  pub common_name : Text
  pub serial_number : ℕ
  pub public_key : Option Pub
  pub usage : Usage
  pub not_before : ℕ
  pub not_after : ℕ
  -- `none` is a nil pointer
  pub ext : Option (List Ext)
  pub country : Text
  pub state : Text
  pub locality : Text
  pub organization : Text
  pub organization_unit : Text
  pub certificate_type : F

-- the number of an int64 with the given bits
abbrev pub signed_64 : ℕ → ℤ
signed_64 bits = if ltb bits (2 ^ 63) then pos bits else negsuc (2 ^ 64 - 1 - bits)

-- time.Duration(h) * time.Hour, with the wrap-around of an int64
unfoldable pub hours : ℤ → ℤ
hours (pos h) = signed_64 ((h * 3600000000000) % 2 ^ 64)
hours (negsuc h) = signed_64 ((2 ^ 64 - ((h + 1) * 3600000000000) % 2 ^ 64) % 2 ^ 64)

-- time.Time.Add; every instant is further from the fixed one than a duration is long
abbrev pub add_time : ℕ → ℤ → ℕ
add_time t (pos n) = t + n
add_time t (negsuc n) = t - (n + 1)

-- x509.Certificate, as newCertificateFromSpec fills it in
pub record Template (Usage Ext : Type 0) : Type 0 where
  pub serial_number : ℕ
  pub common_name : Text
  pub organization : List Text
  pub organizational_unit : List Text
  pub province : List Text
  pub country : List Text
  pub locality : List Text
  pub not_before : ℕ
  pub not_after : ℕ
  pub subject_key_id : List ℕ
  pub signature_algorithm : Text
  pub key_usage : Usage
  pub basic_constraints_valid : Bool
  pub is_ca : Bool
  pub extensions : List Ext
  pub extra_extensions : List Ext

abbrev pub made_or_error : Option Text → Run Text
made_or_error none = errored library_error
made_or_error (some raw) = finished raw

-- the rest of newCertificateFromSpec: without a key, taking its public key panics
abbrev pub create_with :
    {Usage Ext Key : Type 0}
    → (Template Usage Ext → Key → Option Text)
    → Template Usage Ext
    → Option Key
    → Run Text
create_with create t none = crashed
create_with create t (some key) = made_or_error (create t key)

module _ {F Map : Type 0} (lib : Objects F Map) where
  -- jsonMap.Get(path).(string)
  abbrev pub string_at : Option Map → Text → Run Text
  string_at m path = as_string (get_from lib m path)

  abbrev pub number_at : Option Map → Text → Run F
  number_at m path = as_float64 (get_from lib m path)

module _ {Pub Usage Ext F : Type 0} where
  abbrev get_common_name : CertificateSpec Pub Usage Ext F → Text
  get_common_name spec = spec.common_name

  abbrev get_serial_number : CertificateSpec Pub Usage Ext F → ℕ
  get_serial_number spec = spec.serial_number

  abbrev get_public_key : CertificateSpec Pub Usage Ext F → Option Pub
  get_public_key spec = spec.public_key

  abbrev get_usage : CertificateSpec Pub Usage Ext F → Usage
  get_usage spec = spec.usage

  abbrev get_not_before : CertificateSpec Pub Usage Ext F → ℕ
  get_not_before spec = spec.not_before

  abbrev get_not_after : CertificateSpec Pub Usage Ext F → ℕ
  get_not_after spec = spec.not_after

  abbrev get_organization : CertificateSpec Pub Usage Ext F → Text
  get_organization spec = spec.organization

  abbrev get_country : CertificateSpec Pub Usage Ext F → Text
  get_country spec = spec.country

  abbrev get_subject_key_id : CertificateSpec Pub Usage Ext F → List ℕ
  get_subject_key_id spec = 1 ∷ 2 ∷ 3 ∷ 4 ∷ []

  abbrev get_signature_algorithm : CertificateSpec Pub Usage Ext F → Text
  get_signature_algorithm spec = codes "ECDSAWithSHA384"

  abbrev get_extensions : CertificateSpec Pub Usage Ext F → Option (List Ext)
  get_extensions spec = spec.ext

  abbrev get_locality : CertificateSpec Pub Usage Ext F → Text
  get_locality spec = spec.locality

  abbrev get_organizational_unit : CertificateSpec Pub Usage Ext F → Text
  get_organizational_unit spec = spec.organization_unit

  abbrev get_state : CertificateSpec Pub Usage Ext F → Text
  get_state spec = spec.state

  abbrev get_certificate_type : CertificateSpec Pub Usage Ext F → F
  get_certificate_type spec = spec.certificate_type

  -- `is_one` is the test of a float64 against 1
  unfoldable pub template :
      (F → Bool) → CertificateSpec Pub Usage Ext F → List Ext → Template Usage Ext
  template is_one spec extensions = record {
    serial_number = get_serial_number spec;
    common_name = get_common_name spec;
    organization = get_organization spec ∷ [];
    organizational_unit = get_organizational_unit spec ∷ [];
    province = get_state spec ∷ [];
    country = get_country spec ∷ [];
    locality = get_locality spec ∷ [];
    not_before = get_not_before spec;
    not_after = get_not_after spec;
    subject_key_id = get_subject_key_id spec;
    signature_algorithm = get_signature_algorithm spec;
    key_usage = get_usage spec;
    basic_constraints_valid = true;
    is_ca = is_one (get_certificate_type spec);
    extensions = extensions;
    extra_extensions = extensions;
  }

  -- newCertificateFromSpec: `generated` is what ecdsa.GenerateKey returns, and `create` makes the
  -- certificate for the public key, signed by the key itself. A nil pointer to the extensions panics.
  unfoldable pub new_certificate_from_spec :
      {Key : Type 0}
      → (F → Bool)
      → Option Key
      → (Template Usage Ext → Key → Option Text)
      → CertificateSpec Pub Usage Ext F
      → Run Text
  new_certificate_from_spec is_one generated create spec = elim (get_extensions spec) [
    | none ↦ crashed
    | some extensions ↦ create_with create (template is_one spec extensions) generated
  ]

  module _ {Map : Type 0} (lib : Objects F Map) (int64_of : F → ℤ) where
    -- parseCertificateRequest
    unfoldable pub parse_certificate_request :
        ℕ → Text → ℕ → Option Pub → Usage → List Ext → Run (CertificateSpec Pub Usage Ext F)
    parse_certificate_request now text serial_number public_key usage opt =
        let m = lib.new_map_from_json text in
        then_run (string_at lib m (codes "TCertBatchRequest.CerificateRequestData.CN")) λ cn.
          then_run (string_at lib m (codes "TCertBatchRequest.CerificateRequestData.C")) λ c.
            then_run (string_at lib m (codes "TCertBatchRequest.CerificateRequestData.ST")) λ st.
              then_run (string_at lib m (codes "TCertBatchRequest.CerificateRequestData.L")) λ l.
                then_run (string_at lib m (codes "TCertBatchRequest.CerificateRequestData.O")) λ o.
                  then_run (string_at lib m (codes "TCertBatchRequest.CerificateRequestData.OU"))
                    λ ou.
                      then_run
                        (number_at lib m
                          (codes "TCertBatchRequest.CerificateRequestData.validityPeriod"))
                        λ validity.
                          then_run (number_at lib m (codes "TCertBatchRequest.CertificateType"))
                            λ kind. finished (record {
                              common_name = cn;
                              serial_number = serial_number;
                              public_key = public_key;
                              usage = usage;
                              not_before = now;
                              not_after = add_time now (hours (int64_of validity));
                              ext = some opt;
                              country = c;
                              state = st;
                              locality = l;
                              organization = o;
                              organization_unit = ou;
                              certificate_type = kind;
                            })

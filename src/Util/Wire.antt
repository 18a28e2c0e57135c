-- ===== src/Util/Wire.antt =====
-- The wrappers of util/util.go and lib/tcert/util.go around os.Stat, encoding/json, PEM and base64. The
-- libraries are arguments.
use copfvtci.Prelude.{Bool, true, false, Option, none, some, Text, codes}
use copfvtci.Errors.{Result, ok, err, cop_error, marshall_error, unmarshall_error}

-- what os.Stat answers
pub data StatAnswer : Type 0 where
  present missing stat_failed : StatAnswer

-- FileExists: another failure than a missing file counts as a file
abbrev pub file_exists : StatAnswer → Bool
file_exists present = true
file_exists missing = false
file_exists stat_failed = true

abbrev encoded : Option Text → Result Text
encoded none = err (cop_error marshall_error)
encoded (some buf) = ok buf

-- Marshal
unfoldable pub marshal : {A : Type 0} → (A → Option Text) → A → Result Text
marshal json a = encoded (json a)

abbrev decoded : {A : Type 0} → Option A → Result A
decoded none = err (cop_error unmarshall_error)
decoded (some a) = ok a

-- Unmarshal
unfoldable pub unmarshal : {A : Type 0} → (Text → Option A) → Text → Result A
unmarshal json buf = decoded (json buf)

-- DERCertToPEM, and ConvertDERToPEM of lib/tcert/util.go; `encode` is pem.EncodeToMemory by type and bytes
unfoldable pub der_cert_to_pem : (Text → Text → Text) → Text → Text
der_cert_to_pem encode der = encode (codes "CERTIFICATE") der

unfoldable pub convert_der_to_pem : (Text → Text → Text) → Text → Text → Text
convert_der_to_pem encode der datatype = encode datatype der

-- GetEnrollmentIDFromCert of lib/tcert/util.go
unfoldable pub get_enrollment_id_from_cert : {Cert : Type 0} → (Cert → Text) → Cert → Text
get_enrollment_id_from_cert common_name ecert = common_name ecert

-- CreateRootPreKey of lib/tcert/util.go, from the random bytes
unfoldable pub create_root_pre_key : (Text → Text) → Text → Text
create_root_pre_key b64_encode key = b64_encode key

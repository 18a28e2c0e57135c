-- ===== src/Revoke.antt =====
-- cli/server/revoke.go and errors.go: the handler of revocation requests, over any user registry and any
-- store of certificates. Reading the body, the check of a token and the JSON parser are arguments.
pub mod Guards
use copfvtci.Prelude.{
  ℕ, Bool, true, false, not, ◌&&◌, Option, none, some, List, [], ◌∷◌, Text, codes, is_empty,
  if◌then◌else◌,
}
use copfvtci.Prelude.Int.{ℤ, negsuc}
use copfvtci.Errors.{
  CopCode, io_error, authorization_failure, Result, ok, err, Method, ◌>>=◌, ◌>>◌, pure,
}
use copfvtci.Spi.{User, UserRegistry}
use copfvtci.Accessor.{state_field}
use copfvtci.Register.{user_has_attribute}

-- idp.RevocationRequest
pub record RevocationRequest : Type 0 where
  pub name : Text
  pub serial : Text
  pub aki : Text
  pub reason : ℤ

-- What the handler answers: api.SendResponse, or one of the functions of errors.go.
pub data Reply : Type 0 where
  success bad_request auth_err not_found db_err : Reply

-- the HTTP status that httpError writes
unfoldable pub status : Reply → ℕ
status success = 200
status bad_request = 400
status auth_err = 401
status not_found = 404
status db_err = 500

-- what the handler calls of certDBAccessor
pub record CertStore (S : Type 0) : Type 0 where
  pub revoke_certificate : Text → Text → ℤ → Method S (Unit {0})
  pub revoke_certificates_by_id : Text → ℤ → Method S (Unit {0})

pub record Reads (Cert : Type 0) : Type 0 where
  pub verify_token : Text → Text → Option Cert
  pub common_name : Cert → Text
  pub parse : Text → Option RevocationRequest

abbrev pub hf_revoker : Text
hf_revoker = codes "hf.Revoker"

-- `if err != nil { return reply(w, err) }`
abbrev pub replying : {S A : Type 0} → Result A → Reply → (A → S → Reply × S) → S → Reply × S
replying (ok a) reply rest s = rest a s
replying (err e) reply rest s = (reply, s)

abbrev pub or_reply : {S A : Type 0} → Method S A → Reply → (A → S → Reply × S) → S → Reply × S
or_reply m reply rest s = replying (m s).0 reply rest (m s).1

abbrev pub given : {S A : Type 0} → Option A → Reply → (A → S → Reply × S) → S → Reply × S
given none reply rest s = (reply, s)
given (some a) reply rest s = rest a s

abbrev pub answer : {S : Type 0} → Reply → S → Reply × S
answer reply s = (reply, s)

module _ {S Cert : Type 0} (reg : UserRegistry S) (certs : CertStore S) (reads : Reads Cert) where
  -- the part of Handle behind the checks
  unfoldable pub revoke : RevocationRequest → S → Reply × S
  revoke req =
      if not (is_empty req.serial) && not (is_empty req.aki)
      then or_reply (certs.revoke_certificate req.serial req.aki req.reason) not_found
          (λ _. answer success)
      else if not (is_empty req.name)
      then or_reply (reg.get_user req.name []) not_found (λ _.
        or_reply (reg.update_field req.name state_field (negsuc 0)) db_err (λ _.
          or_reply (certs.revoke_certificates_by_id req.name req.reason) db_err
            (λ _. answer success)))
      else answer bad_request

  -- revokeHandler.Handle, from the authorization header and the body (`none` if reading it fails)
  unfoldable pub handle_revoke : Text → Option Text → S → Reply × S
  handle_revoke authorization body =
      if is_empty authorization
      then answer auth_err
      else given body bad_request (λ text.
        given (reads.verify_token authorization text) auth_err (λ cert.
          or_reply (user_has_attribute reg (reads.common_name cert) hf_revoker) auth_err
            (λ _. given (reads.parse text) bad_request revoke)))

-- ===== src/Auth.antt =====
-- cli/server/auth.go: the authentication wrapper around the handlers. Go's Request.BasicAuth, the check
-- of a token (util.VerifyToken) and CFSSL's check of a certificate are arguments.
pub mod Soundness
use copfvtci.Prelude.{
  ℕ, Bool, true, false, not, ◌||◌, Option, none, some, List, [], ◌++◌, Text, text_eq, codes,
  is_empty, if◌then◌else◌,
}
use copfvtci.Errors.{
  Result, ok, err, Method, ◌>>=◌, ◌>>◌, pure, raise, require, no_auth_hdr, basic_auth_not_allowed,
  auth_error,
}
use copfvtci.Spi.{User, UserRegistry}

-- copAuthHandler, without the handler behind it
pub record AuthHandler : Type 0 where
  pub basic : Bool
  pub token : Bool

abbrev basic_auth_handler : AuthHandler
basic_auth_handler = record { basic = true; token = false }

abbrev token_auth_handler : AuthHandler
token_auth_handler = record { basic = false; token = true }

-- NewAuthWrapper: which handler an endpoint gets
unfoldable pub auth_wrapper : Text → AuthHandler
auth_wrapper path =
    if text_eq path (codes "sign") || text_eq path (codes "enroll")
    then basic_auth_handler
    else token_auth_handler

unfoldable pub wrapped_path : Text → Text
wrapped_path path = codes "/api/v1/cfssl/" ++ path

-- What serveHTTP reads and writes of a request. The body is `none` if reading it fails; `eid` is the
-- header __eid__.
pub record Request : Type 0 where
  pub authorization : Text
  pub body : Option Text
  pub eid : Option Text

-- The certificate of a token, as far as the wrapper reads it.
pub record Checks (Cert : Type 0) : Type 0 where
  pub basic_auth : Text → Option (Text × Text)
  pub verify_token : Text → Text → Option Cert
  -- revokedOrExpired and checked of revoke.VerifyCertificate
  pub revoked_or_expired : Cert → Bool
  pub checked : Cert → Bool
  pub common_name : Cert → Text

abbrev pub set_eid : Text → Request → Request
set_eid id r = record r { eid = some id }

module _ {S Cert : Type 0} (reg : UserRegistry S) (checks : Checks Cert) where
  basic_login : AuthHandler → Request → Text × Text → Method S Request
  basic_login ah r (user, pwd) = do
    require ah.basic basic_auth_not_allowed
    u ← reg.get_user user []
    u.login pwd
    pure (set_eid user r)

  verify_certificate : Request → Option Cert → Method S Request
  verify_certificate r none = raise auth_error
  verify_certificate r (some cert) = do
    require (not (checks.revoked_or_expired cert)) auth_error
    require (checks.checked cert) auth_error
    pure (set_eid (checks.common_name cert) r)

  verify_body : Request → Option Text → Method S Request
  unfolding verify_certificate
  verify_body r none = raise auth_error
  verify_body r (some body) = verify_certificate r (checks.verify_token r.authorization body)

  authenticate : AuthHandler → Request → Option (Text × Text) → Method S Request
  unfolding basic_login verify_body
  authenticate ah r (some login) = basic_login ah r login
  authenticate ah r none = if ah.token then verify_body r r.body else pure r

  -- copAuthHandler.serveHTTP: the request that goes on to the handler, or the error
  unfoldable pub serve_http : Bool → AuthHandler → Request → Method S Request
  unfolding authenticate
  serve_http authentication ah r =
      if not authentication
      then pure r
      else if is_empty r.authorization
      then raise no_auth_hdr
      else authenticate ah r (checks.basic_auth r.authorization)

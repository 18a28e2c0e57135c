-- ===== src/Server/Table.antt =====
-- The endpoints of cli/server/server.go as a client sees them, and that the table there has no others.
use copfvtci.Prelude.{
  ◌≡◌, ◌⊎◌, refl, sym, ap, ◌∙◌, inl, inr, Bool, true, false, Option, none, some, Text, text_eq,
  codes, All, if◌then◌else◌,
}
use copfvtci.Errors.{Run, finished, run_of, then_run-finished, finished-injective}
use copfvtci.Auth.{AuthHandler, auth_wrapper, wrapped_path}
use copfvtci.Util.{ends_in}
use copfvtci.Server.{
  Handler, register, enroll, reenroll, revoke, tcert, sign, auth_sign, info, crl, cert_generator,
  bundle, key_generator, init_ca, scan, scan_info, cert_info, ocsp_sign, file_server, Setup,
  endpoints, made, with_signer, bundled,
}

abbrev with_password : AuthHandler
with_password = record { basic = true; token = false }

abbrev with_token : AuthHandler
with_token = record { basic = false; token = true }

-- the handler at a path, and the credentials that it takes
unfoldable pub endpoint_at : Text → Option (AuthHandler × Handler)
endpoint_at p =
    if text_eq p (codes "/api/v1/cfssl/register")
    then some (with_token, register)
    else if text_eq p (codes "/api/v1/cfssl/enroll")
    then some (with_password, enroll)
    else if text_eq p (codes "/api/v1/cfssl/reenroll")
    then some (with_token, reenroll)
    else if text_eq p (codes "/api/v1/cfssl/revoke")
    then some (with_token, revoke)
    else if text_eq p (codes "/api/v1/cfssl/tcert")
    then some (with_token, tcert)
    else if text_eq p (codes "/api/v1/cfssl/sign")
    then some (with_password, sign)
    else if text_eq p (codes "/api/v1/cfssl/authsign")
    then some (with_token, auth_sign)
    else if text_eq p (codes "/api/v1/cfssl/info")
    then some (with_token, info)
    else if text_eq p (codes "/api/v1/cfssl/gencrl")
    then some (with_token, crl)
    else if text_eq p (codes "/api/v1/cfssl/newcert")
    then some (with_token, cert_generator)
    else if text_eq p (codes "/api/v1/cfssl/bundle")
    then some (with_token, bundle)
    else if text_eq p (codes "/api/v1/cfssl/newkey")
    then some (with_token, key_generator)
    else if text_eq p (codes "/api/v1/cfssl/init_ca")
    then some (with_token, init_ca)
    else if text_eq p (codes "/api/v1/cfssl/scan")
    then some (with_token, scan)
    else if text_eq p (codes "/api/v1/cfssl/scaninfo")
    then some (with_token, scan_info)
    else if text_eq p (codes "/api/v1/cfssl/certinfo")
    then some (with_token, cert_info)
    else if text_eq p (codes "/api/v1/cfssl/ocspsign")
    then some (with_token, ocsp_sign)
    else none

abbrev pub AtEndpoint : Text → AuthHandler → Handler → Type 0
AtEndpoint p a h = endpoint_at p ≡ some (a, h)

-- a pattern is that of the static files, or the path of an endpoint, and no other ends in a slash
abbrev pub Placed : Text × (AuthHandler × Handler) → Type 0
Placed (pattern, (a, h)) =
    ((pattern ≡ wrapped_path (codes "/")) × (h ≡ file_server))
    ⊎ (AtEndpoint pattern a h × (ends_in b'/' pattern ≡ false))

-- so is what registerHandlers makes of an endpoint
abbrev pub Good : Text × Run Handler → Type 0
Good (path, handler) =
    (h : Handler) → handler ≡ finished h → Placed (wrapped_path path, (auth_wrapper path, h))

-- the constructor returns no other handler
abbrev Makes : Run Handler → Handler → Type 0
Makes r k = (h : Handler) → r ≡ finished h → k ≡ h

finished-Makes : (k : Handler) → Makes (finished k) k
finished-Makes k h e = finished-injective e

made-Makes : (r : Run (Unit {0})) (k : Handler) → Makes (made r k) k
made-Makes r k h e = let (u, _, f) = then_run-finished r _ h e in finished-injective f

with_signer-Makes :
    (s : Setup) (b : Bool) (r : Run Handler) (k : Handler) → Makes r k → Makes (with_signer s b r) k
with_signer-Makes s true r k makes h e = makes h e
with_signer-Makes s false r k makes h e = absurd (cc)

at_path :
    (path : Text) (r : Run Handler) (k : Handler)
    → AtEndpoint (wrapped_path path) (auth_wrapper path) k
    → ends_in b'/' (wrapped_path path) ≡ false
    → Makes r k
    → Good (path, r)
at_path path r k there no_slash makes h e =
    inr (there ∙ ap (λ x. some (auth_wrapper path, x)) (makes h e), no_slash)

pub endpoints-Good : (s : Setup) → All Good (endpoints s)
unfolding endpoints wrapped_path ends_in endpoint_at auth_wrapper text_eq
endpoints-Good s = (
  at_path (codes "register") _ register refl refl (finished-Makes register),
  (
    at_path (codes "enroll") _ enroll refl refl (finished-Makes enroll),
    (
      at_path (codes "reenroll") _ reenroll refl refl (finished-Makes reenroll),
      (
        at_path (codes "revoke") _ revoke refl refl (finished-Makes revoke),
        (
          at_path (codes "tcert") _ tcert refl refl (made-Makes (s.new_tcert) tcert),
          (
            at_path (codes "sign") _ sign refl refl
                (with_signer-Makes s s.enroll_signer _ sign (made-Makes (run_of s.new_sign) sign)),
            (
              at_path (codes "authsign") _ auth_sign refl refl (
                  with_signer-Makes s s.enroll_signer _ auth_sign
                    (made-Makes (run_of s.new_auth_sign) auth_sign)),
              (
                at_path (codes "info") _ info refl refl (
                    with_signer-Makes s s.enroll_signer _ info
                      (made-Makes (run_of s.new_info) info)),
                (
                  at_path (codes "gencrl") _ crl refl refl
                      (with_signer-Makes s s.enroll_signer _ crl (finished-Makes crl)),
                  (
                    at_path (codes "newcert") _ cert_generator refl refl (
                        with_signer-Makes s s.enroll_signer _ cert_generator
                          (made-Makes (bundled s) cert_generator)),
                    (
                      at_path (codes "bundle") _ bundle refl refl (
                          made-Makes (run_of (s.new_bundle s.ca_bundle_file s.int_bundle_file))
                            bundle),
                      (
                        at_path (codes "newkey") _ key_generator refl refl
                            (made-Makes (run_of s.new_key) key_generator),
                        (
                          at_path (codes "init_ca") _ init_ca refl refl (finished-Makes init_ca),
                          (
                            at_path (codes "scan") _ scan refl refl
                                (made-Makes (run_of (s.new_scan s.ca_bundle_file)) scan),
                            (
                              at_path (codes "scaninfo") _ scan_info refl refl
                                  (finished-Makes scan_info),
                              (
                                at_path (codes "certinfo") _ cert_info refl refl
                                    (finished-Makes cert_info),
                                (
                                  at_path (codes "ocspsign") _ ocsp_sign refl refl (
                                      with_signer-Makes s s.ocsp_signer _ ocsp_sign
                                        (finished-Makes ocsp_sign)),
                                  (
                                    λ h e. inl (
                                      refl,
                                      sym (made-Makes (run_of s.find_box) file_server h e),
                                    ),
                                    tt,
                                  ),
                                ),
                              ),
                            ),
                          ),
                        ),
                      ),
                    ),
                  ),
                ),
              ),
            ),
          ),
        ),
      ),
    ),
  ),
)

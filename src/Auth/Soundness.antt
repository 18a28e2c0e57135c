-- ===== src/Auth/Soundness.antt =====
-- What a request has shown when serveHTTP of cli/server/auth.go lets it through.
use copfvtci.Prelude.{
  ◌≡◌, refl, ◌⊎◌, inl, inr, true, false, Option, none, some, Text, is_empty, codes, arith,
  Bool-cases, text_eq,
}
use copfvtci.Errors.{ok}
use copfvtci.Spi.{UserRegistry}
use copfvtci.Auth.{
  AuthHandler, auth_wrapper, Request, Checks, serve_http, set_eid, verify_certificate, verify_body,
  authenticate, basic_login,
}

module _ {S Cert : Type 0} (reg : UserRegistry S) (checks : Checks Cert) where
  -- what a good token shows
  abbrev pub TokenShown : Request → Request → Type 0
  TokenShown r r' =
      (body : Text) × (cert : Cert) × (r.body ≡ some body)
      × (checks.verify_token r.authorization body ≡ some cert)
      × (checks.revoked_or_expired cert ≡ false)
      × (checks.checked cert ≡ true)
      × (r' ≡ set_eid (checks.common_name cert) r)

  verified :
      (r r' : Request) (s : S) (c : Option Cert)
      → (verify_certificate reg checks r c s).0 ≡ ok r'
      → ((cert : Cert) × (c ≡ some cert)
          × (checks.revoked_or_expired cert ≡ false)
          × (checks.checked cert ≡ true)
          × (r' ≡ set_eid (checks.common_name cert) r))
        × ((verify_certificate reg checks r c s).1 ≡ s)
  unfolding verify_certificate
  verified r r' s none h = absurd (cc)
  verified r r' s (some cert) h =
      ((cert, refl, ground arith, ground arith, ground arith), ground arith)

  verified_body :
      (r r' : Request) (s : S) (b : Option Text)
      → (verify_body reg checks r b s).0 ≡ ok r'
      → ((body : Text) × (cert : Cert) × (b ≡ some body)
          × (checks.verify_token r.authorization body ≡ some cert)
          × (checks.revoked_or_expired cert ≡ false)
          × (checks.checked cert ≡ true)
          × (r' ≡ set_eid (checks.common_name cert) r))
        × ((verify_body reg checks r b s).1 ≡ s)
  unfolding verify_body
  verified_body r r' s none h = absurd (cc)
  verified_body r r' s (some body) h =
      let ((cert, e, a, b, c), same) =
        verified r r' s (checks.verify_token r.authorization body) h in
      ((body, cert, refl, e, a, b, c), same)

  authenticated_token :
      (ah : AuthHandler) (r r' : Request) (s : S) (login : Option (Text × Text))
      → ah.basic ≡ false
      → ah.token ≡ true
      → (authenticate reg checks ah r login s).0 ≡ ok r'
      → TokenShown r r' × ((authenticate reg checks ah r login s).1 ≡ s)
  unfolding authenticate basic_login
  authenticated_token ah r r' s (some (user, pwd)) nb tk h = absurd (ground arith)
  authenticated_token ah r r' s none nb tk h = rw tk (verified_body r r' s r.body (rw tk at h))

  -- With authentication on, an endpoint that takes tokens lets a request through only with a token
  -- that verifies over the body, by a certificate that was checked and is neither revoked nor expired.
  -- The request that goes on names the certificate's common name as its enrollment id, and the
  -- registry is not touched.
  pub serve_http_token :
      (ah : AuthHandler) (r r' : Request) (s : S)
      → ah.basic ≡ false
      → ah.token ≡ true
      → (serve_http reg checks true ah r s).0 ≡ ok r'
      → TokenShown r r' × ((serve_http reg checks true ah r s).1 ≡ s)
  unfolding serve_http
  serve_http_token ah r r' s nb tk h = elim (Bool-cases (is_empty r.authorization)) [
    | inl e ↦ absurd (ground arith)
    | inr e ↦
        rw e (authenticated_token ah r r' s (checks.basic_auth r.authorization) nb tk (rw e at h))
  ]

  -- The endpoints "sign" and "enroll" take Basic credentials only. They let any request through whose
  -- authorization header is there and is not of the Basic form, whatever it holds: nothing is checked,
  -- and the enrollment id that the client wrote into the request goes on with it.
  pub serve_http_bypass :
      (path : Text) (r : Request) (s : S)
      → (path ≡ codes "sign") ⊎ (path ≡ codes "enroll")
      → is_empty r.authorization ≡ false
      → checks.basic_auth r.authorization ≡ none
      → serve_http reg checks true (auth_wrapper path) r s ≡ (ok r, s)
  unfolding serve_http auth_wrapper authenticate text_eq
  serve_http_bypass path r s (inl e) given other = rw (e, given, other)
  serve_http_bypass path r s (inr e) given other = rw (e, given, other)

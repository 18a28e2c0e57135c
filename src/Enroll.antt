-- ===== src/Enroll.antt =====
-- cli/server/enroll.go: the handler for enrolling and enrolling again, behind the wrapper of
-- cli/server/auth.go. JSON and CFSSL's signer are parameters. The signer has an accessor of the database
-- (SignerFromConfigAndDB), into which it puts a certificate that it signs: it is a method on the state of
-- the registry. It is nil if the start of the server could not make one.
use copfvtci.Prelude.{
  ◌≡◌, ◌≢◌, ◌↔◌, refl, sym, ap, ◌∙◌, inl, inr, true, false, Option, none, some, Text, codes,
  text_eq, is_empty, Option-cases,
}
use mathlib.Core.Path.{subst}
use copfvtci.Errors.{
  Result, ok, err, Method, Result-cases, Outcome, returned, failed, panicked, library_error,
}
use copfvtci.Spi.{UserRegistry}
use copfvtci.Auth.{auth_wrapper, Request, Checks, serve_http}
use copfvtci.Auth.Soundness.{TokenShown, serve_http_token, serve_http_bypass}

module _ {S Sign : Type 0} (signer : Option (Sign → Method S Text))
    (parse : Text → Option Sign) where
  abbrev signed : Result Text × S → Outcome Text × S
  signed (err e, s) = (failed library_error, s)
  signed (ok cert, s) = (returned cert, s)

  abbrev sign_with : Option (Sign → Method S Text) → Sign → S → Outcome Text × S
  sign_with none req s = (panicked, s)
  sign_with (some sign) req s = signed (sign req s)

  abbrev handle_parsed : Option Sign → S → Outcome Text × S
  handle_parsed none s = (failed library_error, s)
  handle_parsed (some req) s = sign_with signer req s

  -- signHandler.Handle, up to the response: the certificate
  unfoldable pub handle_sign : Option Text → S → Outcome Text × S
  handle_sign none s = (failed library_error, s)
  handle_sign (some body) s = handle_parsed (parse body) s

  -- the signer, which is there, signed the request that the body decodes to, and left the state
  abbrev pub SignedBody : Option Text → S → Text → S → Type 0
  SignedBody body s cert s' =
      (b : Text) × (sign : Sign → Method S Text) × (req : Sign) × (body ≡ some b)
      × (parse b ≡ some req)
      × (signer ≡ some sign)
      × (sign req s ≡ (ok cert, s'))

  returned-ok :
      (r : Result Text × S) (cert : Text) (s' : S)
      → signed r ≡ (returned cert, s')
      → r ≡ (ok cert, s')
  returned-ok (ok c, s) cert s' h =
      let same : returned c ≡ returned cert = ap (λ x. x.0) h in
      let same_cert : c ≡ cert = cc in
      ap (λ (x : Text). (ok x, s)) same_cert ∙ ap (λ (t : S). (ok cert, t)) (ap (λ x. x.1) h)
  returned-ok (err e, s) cert s' h =
      let same : failed library_error ≡ returned cert = ap (λ x. x.0) h in absurd (cc)

  none-ne-returned :
      {o : Outcome Text} {cert : Text} {s s' : S}
      → ((c : Text) → o ≢ returned c)
      → ◌≢◌ {A = Outcome Text × S} (o, s) (returned cert, s')
  none-ne-returned {o} {cert} other h = other cert (ap (λ x. x.0) h)

  handle_sign_sound :
      (body : Option Text) (s : S) (cert : Text) (s' : S)
      → handle_sign body s ≡ (returned cert, s')
      → SignedBody body s cert s'
  unfolding handle_sign
  handle_sign_sound none s cert s' h = absurd (none-ne-returned (λ c e. cc) h)
  handle_sign_sound (some b) s cert s' h = elim (Option-cases (parse b)) [
    | inl e ↦ absurd (none-ne-returned (λ c e. cc) (rw e at h))
    | inr (req, e) ↦ elim (Option-cases signer) [
      | inl f ↦ absurd (none-ne-returned (λ c e. cc) (rw (e, f) at h))
      | inr (sign, f) ↦
          (b, sign, req, refl, e, f, returned-ok (sign req s) cert s' (rw (e, f) at h))
    ]
  ]

  handle_sign-signed :
      (body : Option Text) (s : S) (cert : Text) (s' : S)
      → SignedBody body s cert s'
      → handle_sign body s ≡ (returned cert, s')
  unfolding handle_sign
  handle_sign-signed body s cert s' (b, sign, req, given, read, there, made) =
      rw (given, read, there, made) refl

  module _ {Cert : Type 0} (reg : UserRegistry S) (checks : Checks Cert) where
    abbrev handled : Result Request → S → Outcome Text × S
    handled (err e) s = (failed e, s)
    handled (ok r) s = handle_sign r.body s

    -- the handler of "enroll" or "reenroll" behind its wrapper
    unfoldable pub sign_endpoint : Text → Request → S → Outcome Text × S
    sign_endpoint endpoint r s =
        let (passed, s') = serve_http reg checks true (auth_wrapper endpoint) r s in
        handled passed s'

    reenroll_wrapper :
        ((auth_wrapper (codes "reenroll")).basic ≡ false)
        × ((auth_wrapper (codes "reenroll")).token ≡ true)
    unfolding auth_wrapper text_eq
    reenroll_wrapper = (refl, refl)

    pub reenroll_sound :
        (r : Request) (s : S) (cert : Text) (s' : S)
        → sign_endpoint (codes "reenroll") r s ≡ (returned cert, s')
        → ((r' : Request) × TokenShown reg checks r r') × SignedBody r.body s cert s'
    unfolding sign_endpoint
    reenroll_sound r s cert s' h =
        let ah = auth_wrapper (codes "reenroll") in
        elim (Result-cases (serve_http reg checks true ah r s).0) [
          | inr (x, e) ↦ absurd (none-ne-returned (λ c e. cc) (rw e at h))
          | inl (r', e) ↦
              let ((body, x, given, shown, live, seen, named), same) =
                serve_http_token reg checks ah r r' s reenroll_wrapper.0 reenroll_wrapper.1 e in
              (
                (r', (body, x, given, shown, live, seen, named)),
                subst (λ (b : Option Text). SignedBody b s cert s')
                    (ap (λ (q : Request). q.body) named)
                    (handle_sign_sound r'.body s cert s' (rw (e, same) at h)),
              )
        ]

    -- A request to the endpoint "enroll" whose header is set and does not read as basic credentials gets a
    -- certificate exactly if its body decodes and the signer, which is there, signs it: nobody checks who
    -- sent it, neither the registry nor a token.
    pub enroll_unchecked :
        (r : Request) (s : S) (cert : Text) (s' : S)
        → is_empty r.authorization ≡ false
        → checks.basic_auth r.authorization ≡ none
        → (sign_endpoint (codes "enroll") r s ≡ (returned cert, s')) ↔ SignedBody r.body s cert s'
    unfolding sign_endpoint
    enroll_unchecked r s cert s' given other =
        let passes : sign_endpoint (codes "enroll") r s ≡ handle_sign r.body s =
          rw (serve_http_bypass reg checks (codes "enroll") r s (inr refl) given other) refl in
        (
          λ h. handle_sign_sound r.body s cert s' (sym passes ∙ h),
          λ made. passes ∙ handle_sign-signed r.body s cert s' made,
        )

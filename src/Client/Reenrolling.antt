-- ===== src/Client/Reenrolling.antt =====
-- Reenroll of lib/client.go against the server: the network leads to the endpoint "reenroll" of
-- cli/server/enroll.go behind its wrapper.
use copfvtci.Prelude.{
  ℕ, ◌≡◌, ◌≤◌, ◌≢◌, refl, sym, ap, ◌∙◌, inl, inr, Bool, true, Option, none, some, Text, codes,
  arith, Option-cases,
}
use copfvtci.Errors.{
  Error, ok, err, Method, Result-cases, ok-injective, Outcome, returned, failed, panicked,
  library_error,
}
use copfvtci.Spi.{UserRegistry}
use copfvtci.Auth.{Checks}
use copfvtci.Token.{Crypto}
use copfvtci.Enroll.{sign_endpoint, reenroll_sound}
use copfvtci.Client.Url.{NetLib}
use copfvtci.Client.Http.{
  Client, HttpRequest, HttpResponse, ErrorBody, Network, send_post, answered, posted_result,
}
use copfvtci.Client.Identity.{
  Identity, ClientJson, json_string, new_identity, post, post_request, post_request-body,
}
use copfvtci.Client.Enrolling.{
  SignRequest, ReenrollmentRequest, EnrollLib, gen_csr, sign_body, reenroll,
  new_identity_from_response,
}
use copfvtci.Client.Sent.{arrives}

-- how the server's HTTP layer writes a certificate and an error
pub record SignWire : Type 0 where
  pub accepts_url : Text → Bool
  pub error_body : Text → ErrorBody
  pub render : Text → Text
  pub render_error : Error → Text
  pub error_status : Error → ℕ

-- Go's server closes the connection of a handler that panics
abbrev reply : SignWire → Outcome Text → Option HttpResponse
reply wire (returned cert) = some (record { status = 200; body = some (wire.render cert) })
reply wire (failed e) =
    some (record { status = wire.error_status e; body = some (wire.render_error e) })
reply wire panicked = none

some-injective : {A : Type 0} {a b : A} → some a ≡ some b → a ≡ b
some-injective h = cc

returned-injective : {A : Type 0} {a b : A} → returned a ≡ returned b → a ≡ b
returned-injective h = cc

module _ {S Cert : Type 0} (reg : UserRegistry S) (checks : Checks Cert) (wire : SignWire)
    (signer : Option (SignRequest → Method S Text)) (parse : Text → Option SignRequest) where
  abbrev pub reenroll_network : Network S
  reenroll_network = record {
    accepts_url = wire.accepts_url;
    do_request = λ req s.
        let (o, s') = sign_endpoint signer parse reg checks (codes "reenroll") (arrives req) s in
        (reply wire o, s');
    error_body = wire.error_body;
  }

  err-ne-ok : {A : Type 0} {a : A} {x : Error} → err x ≢ ok a
  err-ne-ok h = cc

  status_error :
      (x : Error)
      → 400 ≤ wire.error_status x
      → posted_result (answered reenroll_network (reply wire (failed x))) ≡ err library_error
  status_error x high = ground (arith, high)

  sent_reply :
      (req : HttpRequest) (s : S) (o : Outcome Text) (buf : Text)
      → ((e : Error) → 400 ≤ wire.error_status e)
      → (sign_endpoint signer parse reg checks (codes "reenroll") (arrives req) s).0 ≡ o
      → posted_result (send_post reenroll_network req s).0 ≡ ok buf
      → (cert : Text) × (o ≡ returned cert) × (wire.render cert ≡ buf)
  unfolding send_post
  sent_reply req s (returned cert) buf refuses e h = (cert, refl, ok-injective (rw e at h))
  sent_reply req s (failed x) buf refuses e h =
      absurd (err-ne-ok (sym (status_error x (refuses x)) ∙ rw e at h))
  sent_reply req s panicked buf refuses e h = absurd (cc (sym (rw e at h)))

  module _ {Pub Priv : Type 0} (lib : NetLib) (c : Crypto Cert Pub Priv) (json : ClientJson)
      (el : EnrollLib) where
    post_reply :
        (id : Identity) (body buf : Text) (s : S)
        → ((e : Error) → 400 ≤ wire.error_status e)
        → (post lib reenroll_network c json id (codes "reenroll") body s).0 ≡ ok buf
        → (sent : HttpRequest) × (cert : Text) × (sent.body ≡ body)
          × (sign_endpoint signer parse reg checks (codes "reenroll") (arrives sent) s
              ≡ (returned cert, (post lib reenroll_network c json id (codes "reenroll") body s).1))
          × (wire.render cert ≡ buf)
    unfolding post send_post
    post_reply id body buf s refuses h =
        elim (Result-cases (post_request lib reenroll_network c json id (codes "reenroll") body)) [
          | inr (x, e) ↦ absurd (err-ne-ok (rw e at h))
          | inl (sent, e) ↦
              let (cert, answer, rendered) =
                sent_reply sent s
                  (sign_endpoint signer parse reg checks (codes "reenroll") (arrives sent) s).0 buf
                  refuses refl (rw e at h) in
              let served =
                sign_endpoint signer parse reg checks (codes "reenroll") (arrives sent) s in
              (
                sent,
                cert,
                post_request-body lib reenroll_network c json id (codes "reenroll") body sent e,
                rw e (ap (λ (o : Outcome Text). (o, served.1)) answer),
                rendered,
              )
        ]

    -- If Reenroll returns an identity to the client, then the server's signer signed the CSR that the
    -- client made for the name of the identity that enrolls again, with the hosts, the profile and the
    -- label of the request, on the server's state as it was and leaving it as it now is, and the new identity
    -- has that name, the key of the CSR and the signed certificate. The server reads a request as the client wrote it, answers an error with a status of
    -- 400 or more, and the client reads from a response the certificate that the server wrote.
    pub reenroll-sign_endpoint :
        (client : Client) (req : ReenrollmentRequest) (id i : Identity) (s : S)
        → ((q : SignRequest) (body : Text) → el.sign_request q ≡ some body → parse body ≡ some q)
        → ((e : Error) → 400 ≤ wire.error_status e)
        → ((cert : Text)
            → (b64 : Text) × (el.response (wire.render cert)
                ≡ some (record { success = true; result = json_string b64 }))
              × (el.b64_decoded b64 ≡ cert))
        → req.id ≡ some id
        → (reenroll el lib reenroll_network c json client req s).0 ≡ returned i
        → (csr key cert : Text) × (sign : SignRequest → Method S Text) × (gen_csr el req.csr id.name
            ≡ ok (csr, key))
          × (signer ≡ some sign)
          × (sign
                (record {
                  hosts = el.split_hosts req.hosts;
                  request = csr;
                  profile = req.profile;
                  label = req.label;
                })
                s
              ≡ (ok cert, (reenroll el lib reenroll_network c json client req s).1))
          × (i ≡ new_identity client id.name (some key) (some cert))
    unfolding reenroll sign_body new_identity_from_response
    reenroll-sign_endpoint client req id i s reads refuses renders has h =
        elim (Result-cases (gen_csr el req.csr id.name)) [
          | inr (x, e) ↦ absurd (cc (sym (rw (has, e) at h)))
          | inl ((csr, key), e) ↦
              let q : SignRequest = record {
                hosts = el.split_hosts req.hosts;
                request = csr;
                profile = req.profile;
                label = req.label;
              } in
              elim (Option-cases (el.sign_request q)) [
                | inl f ↦ absurd (cc (sym (rw (has, e, f) at h)))
                | inr (body, f) ↦
                    elim (Result-cases
                      (post lib reenroll_network c json id (codes "reenroll") body s).0) [
                        | inr (x, g) ↦ absurd (cc (sym (rw (has, e, f, g) at h)))
                        | inl (buf, g) ↦
                            let (sent, cert, at_body, signed, rendered) =
                              post_reply id body buf s refuses g in
                            let left =
                              (post lib reenroll_network c json id (codes "reenroll") body s).1 in
                            let (shown, (b, sign, q', given, read, has_signer, made)) =
                              reenroll_sound signer parse reg checks (arrives sent) s cert left
                                signed in
                            let (b64, decoded, plain) = renders cert in
                            let at_b : parse b ≡ some q =
                              ap parse (sym (some-injective given) ∙ at_body) ∙ reads q body f in
                            let response = ap el.response (sym rendered) ∙ decoded in
                            (
                              csr,
                              key,
                              cert,
                              sign,
                              e,
                              has_signer,
                              rw (has, e, f, g)
                                  (ap (λ x. sign x s) (some-injective (sym at_b ∙ read)) ∙ made),
                              sym (returned-injective (rw (has, e, f, g, response) at h))
                                  ∙ ap (λ t. new_identity client id.name (some key) (some t)) plain,
                            )
                      ]
              ]
        ]

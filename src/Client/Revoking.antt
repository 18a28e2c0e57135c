-- ===== src/Client/Revoking.antt =====
-- Revoke of lib/identity.go against the server: the network leads to the endpoint "revoke", with the
-- wrapper of cli/server/auth.go in front of the handler of cli/server/revoke.go.
use copfvtci.Prelude.{
  sym, ℕ, ◌≡◌, ◌≤◌, ◌≢◌, refl, ap, ◌∙◌, inl, inr, Bool, true, false, some, Text, text_eq, codes,
  is_empty, arith, Bool-cases, Option-cases,
}
use copfvtci.Errors.{Error, Result, ok, err, Result-cases, ok-injective, library_error}
use copfvtci.Spi.{UserRegistry}
use copfvtci.Auth.{auth_wrapper, Request, set_eid, Checks, serve_http}
use copfvtci.Auth.Soundness.{serve_http_token}
use copfvtci.Token.{Crypto}
use copfvtci.Register.{user_has_attribute}
use copfvtci.Revoke.{
  RevocationRequest, Reply, success, bad_request, auth_err, not_found, db_err, status, CertStore,
  Reads, hf_revoker, handle_revoke,
}
use copfvtci.Client.Url.{NetLib}
use copfvtci.Client.Http.{
  posted_result, HttpRequest, HttpResponse, ErrorBody, Network, answered, send_post,
}
use copfvtci.Client.Identity.{Identity, ClientJson, post_request, post_request-body, post}
use copfvtci.Client.Sent.{arrives}

-- how the server's HTTP layer writes replies, and the parameters of the client's HTTP calls
pub record RevokeWire : Type 0 where
  pub accepts_url : Text → Bool
  pub error_body : Text → ErrorBody
  pub render : Reply → Text
  pub render_error : Error → Text
  pub error_status : Error → ℕ

module _ {S Cert : Type 0} (reg : UserRegistry S) (certs : CertStore S) (reads : Reads Cert)
    (checks : Checks Cert) (wire : RevokeWire) where
  -- what was done for a request that is answered with success
  handle_revoke_success :
      (authorization text : Text) (s : S)
      → (handle_revoke reg certs reads authorization (some text) s).0 ≡ success
      → (cert : Cert) × (q : RevocationRequest) × (reads.verify_token authorization text
          ≡ some cert)
        × ((user_has_attribute reg (reads.common_name cert) hf_revoker s).0 ≡ ok tt)
        × (reads.parse text ≡ some q)
        × (copfvtci.Revoke.revoke reg certs reads q
              (user_has_attribute reg (reads.common_name cert) hf_revoker s).1
            ≡ (success, (handle_revoke reg certs reads authorization (some text) s).1))
  unfolding handle_revoke
  handle_revoke_success authorization text s h = elim (Bool-cases (is_empty authorization)) [
    | inl e ↦ absurd (cc (sym (rw e at h)))
    | inr e ↦ elim (Option-cases (reads.verify_token authorization text)) [
      | inl f ↦ absurd (cc (sym (rw (e, f) at h)))
      | inr (cert, f) ↦
          elim (Result-cases (user_has_attribute reg (reads.common_name cert) hf_revoker s).0) [
            | inr (x, g) ↦ absurd (cc (sym (rw (e, f, g) at h)))
            | inl (t, g) ↦ elim (Option-cases (reads.parse text)) [
              | inl k ↦ absurd (cc (sym (rw (e, f, g, k) at h)))
              | inr (q, k) ↦
                  let done = handle_revoke reg certs reads authorization (some text) s in
                  let same : done
                      ≡ copfvtci.Revoke.revoke reg certs reads q
                          (user_has_attribute reg (reads.common_name cert) hf_revoker s).1 =
                    rw (e, f, g, k) refl in
                  (cert, q, f, g, k, sym same ∙ ap (λ x. (x, done.1)) h)
            ]
          ]
    ]
  ]

  abbrev reply : Result Reply → HttpResponse
  reply (ok r) = record { status = status r; body = some (wire.render r) }
  reply (err e) = record { status = wire.error_status e; body = some (wire.render_error e) }

  abbrev handled : Result Request → S → Result Reply × S
  handled (err e) s = (err e, s)
  handled (ok r) s =
      let (answer, s') = handle_revoke reg certs reads r.authorization r.body s in (ok answer, s')

  -- the wrapper, and the handler behind it
  unfoldable pub revoke_endpoint : HttpRequest → S → Result Reply × S
  revoke_endpoint req s =
      let (r, s') = serve_http reg checks true (auth_wrapper (codes "revoke")) (arrives req) s in
      handled r s'

  abbrev pub revoke_network : Network S
  revoke_network = record {
    accepts_url = wire.accepts_url;
    do_request = λ req s. let (r, s') = revoke_endpoint req s in (some (reply r), s');
    error_body = wire.error_body;
  }

  revoke_wrapper :
      ((auth_wrapper (codes "revoke")).basic ≡ false)
      × ((auth_wrapper (codes "revoke")).token ≡ true)
  unfolding auth_wrapper text_eq
  revoke_wrapper = (refl, refl)

  some-injective : {A : Type 0} {a b : A} → some a ≡ some b → a ≡ b
  some-injective h = cc

  err-ne-ok : {A : Type 0} {a : A} {x : Error} → err x ≢ ok a
  err-ne-ok h = cc

  -- only success is no error status
  answered_success :
      (o : Result Reply) (buf : Text)
      → ((e : Error) → 400 ≤ wire.error_status e)
      → posted_result (answered revoke_network (some (reply o))) ≡ ok buf
      → o ≡ ok success
  unfolding status
  answered_success (ok success) buf high h = refl
  answered_success (ok bad_request) buf high h = absurd (err-ne-ok h)
  answered_success (ok auth_err) buf high h = absurd (err-ne-ok h)
  answered_success (ok not_found) buf high h = absurd (err-ne-ok h)
  answered_success (ok db_err) buf high h = absurd (err-ne-ok h)
  answered_success (err e) buf high h = absurd (err-ne-ok (sym (refused e (high e)) ∙ h))
    where
      refused :
          (e : Error)
          → 400 ≤ wire.error_status e
          → posted_result (answered revoke_network (some (reply (err e)))) ≡ err library_error
      refused e high = ground (arith, high)

  send_post_success :
      (req : HttpRequest) (s : S) (buf : Text)
      → ((e : Error) → 400 ≤ wire.error_status e)
      → posted_result (send_post revoke_network req s).0 ≡ ok buf
      → ((revoke_endpoint req s).0 ≡ ok success)
        × ((send_post revoke_network req s).1 ≡ (revoke_endpoint req s).1)
  unfolding send_post
  send_post_success req s buf high h = (answered_success (revoke_endpoint req s).0 buf high h, refl)

  -- what the endpoint did for a request that it answered with success
  revoke_endpoint_sound :
      (req : HttpRequest) (s : S)
      → (revoke_endpoint req s).0 ≡ ok success
      → (cert : Cert) × (q : RevocationRequest) × (reads.verify_token req.authorization req.body
          ≡ some cert)
        × ((user_has_attribute reg (reads.common_name cert) hf_revoker s).0 ≡ ok tt)
        × (reads.parse req.body ≡ some q)
        × (copfvtci.Revoke.revoke reg certs reads q
              (user_has_attribute reg (reads.common_name cert) hf_revoker s).1
            ≡ (success, (revoke_endpoint req s).1))
  unfolding revoke_endpoint
  revoke_endpoint_sound req s h =
      let served = serve_http reg checks true (auth_wrapper (codes "revoke")) (arrives req) s in
      elim (Result-cases served.0) [
        | inr (x, e) ↦ absurd (err-ne-ok (sym (ap (λ y. (handled y served.1).0) e) ∙ h))
        | inl (r, e) ↦
            let ((body, cert, given, verified, live, seen, named), same) =
              serve_http_token reg checks (auth_wrapper (codes "revoke")) (arrives req) r s
                revoke_wrapper.0 revoke_wrapper.1 e in
            let at_handler : (revoke_endpoint req s)
                ≡ handled (ok (set_eid (checks.common_name cert) (arrives req))) s =
              ap (λ y. handled y served.1) e
              ∙ ap (λ y. handled (ok r) y) same
              ∙ ap (λ y. handled (ok y) s) named in
            let (x, q, f, g, k, done) =
              handle_revoke_success req.authorization req.body s
                (ok-injective (sym (ap (λ y. y.0) at_handler) ∙ h)) in
            (x, q, f, g, k, done ∙ ap (λ y. (success, y.1)) (sym at_handler))
      ]

  module _ {Pub Priv : Type 0} (lib : NetLib) (c : Crypto Cert Pub Priv) (json : ClientJson) where
    -- If Revoke succeeds for the client, then the server's handler verified the token of the request that
    -- the client posted, found the attribute hf.Revoker with the user of the token's certificate, and
    -- carried out the client's revocation request with success, which left the registry and the
    -- certificates as they now are. The server reads a request as the client wrote it and answers an error
    -- of its authentication with a status of 400 or more.
    pub revoke-handle_revoke :
        (i : Identity) (req : RevocationRequest) (s : S)
        → ((body : Text) → json.revocation_request req ≡ some body → reads.parse body ≡ some req)
        → ((e : Error) → 400 ≤ wire.error_status e)
        → (copfvtci.Client.Identity.revoke lib revoke_network c json i req s).0 ≡ ok tt
        → (sent : HttpRequest) × (cert : Cert) × (json.revocation_request req ≡ some sent.body)
          × (reads.verify_token sent.authorization sent.body ≡ some cert)
          × ((user_has_attribute reg (reads.common_name cert) hf_revoker s).0 ≡ ok tt)
          × (copfvtci.Revoke.revoke reg certs reads req
                (user_has_attribute reg (reads.common_name cert) hf_revoker s).1
              ≡ (success, (copfvtci.Client.Identity.revoke lib revoke_network c json i req s).1))
    unfolding copfvtci.Client.Identity.revoke post
    revoke-handle_revoke i req s read high h = elim (Option-cases (json.revocation_request req)) [
      | inl e ↦ absurd (err-ne-ok (rw e at h))
      | inr (body, e) ↦
          elim (Result-cases (post_request lib revoke_network c json i (codes "revoke") body)) [
            | inr (x, f) ↦ absurd (err-ne-ok (rw (e, f) at h))
            | inl (sent, f) ↦
                elim (Result-cases (posted_result (send_post revoke_network sent s).0)) [
                  | inr (x, g) ↦ absurd (err-ne-ok (rw (e, f, g) at h))
                  | inl (buf, g) ↦
                      let of_body =
                        post_request-body lib revoke_network c json i (codes "revoke") body sent
                          f in
                      let (done, same) = send_post_success sent s buf high g in
                      let (cert, q, v, may, parsed, carried) = revoke_endpoint_sound sent s done in
                      let at_req : q ≡ req =
                        some-injective (sym parsed ∙ ap reads.parse of_body ∙ read body e) in
                      let left : (copfvtci.Client.Identity.revoke lib revoke_network c json i req
                            s).1
                          ≡ (revoke_endpoint sent s).1 =
                        rw (e, f, g) same in
                      (
                        sent,
                        cert,
                        e ∙ ap some (sym of_body),
                        v,
                        may,
                        ap
                              (λ y.
                                copfvtci.Revoke.revoke reg certs reads y
                                  (user_has_attribute reg (reads.common_name cert) hf_revoker s).1)
                              (sym at_req)
                            ∙ carried
                            ∙ ap (λ y. (success, y)) (sym left),
                      )
                ]
          ]
    ]

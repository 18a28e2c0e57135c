-- ===== src/Client/Registering.antt =====
-- Register of lib/client.go against the server: the network leads to the endpoint "register", with the
-- wrapper of cli/server/auth.go in front of the handler of cli/server/register.go.
use copfvtci.Prelude.{
  sym, ℕ, ◌≡◌, ◌≤◌, ◌≢◌, refl, ap, ◌∙◌, inl, inr, Bool, true, false, Option, some, [], Text,
  text_eq, codes, is_empty, arith, Bool-cases, Option-cases,
}
use copfvtci.Prelude.Int.{ℤ}
use copfvtci.Errors.{Error, Result, ok, err, Method, Result-cases, returned, failed, library_error}
use copfvtci.Spi.{UserRegistry}
use copfvtci.Auth.{auth_wrapper, Request, Checks, serve_http}
use copfvtci.Auth.Soundness.{serve_http_token}
use copfvtci.Token.{Crypto}
use copfvtci.Register.{register_user}
use copfvtci.Register.Handler.{RegisterRequest, handle_register}
use copfvtci.Client.Url.{NetLib}
use copfvtci.Client.Http.{
  received, posted_result, HttpRequest, HttpResponse, ErrorBody, Network, send_post,
}
use copfvtci.Client.Identity.{
  Identity, ClientJson, json_string, RegistrationRequest, register_body, post_request,
  post_request-body, post, register,
}
use copfvtci.Client.Sent.{arrives}

-- how the server's HTTP layer writes a token and an error, and the parameters of the client's HTTP calls
pub record Wire : Type 0 where
  pub accepts_url : Text → Bool
  pub error_body : Text → ErrorBody
  pub render : Text → Text
  -- base64.StdEncoding, with its padding, in which encoding/json writes the bytes of a token
  pub std_encode : Text → Text
  pub render_error : Error → Text
  pub error_status : Error → ℕ
  pub parse : Text → Option RegisterRequest

returned-injective : {A : Type 0} {a b : A} → returned a ≡ returned b → a ≡ b
returned-injective h = cc

returned-ne-failed : {A : Type 0} {a : A} {e : Error} → failed e ≢ returned a
returned-ne-failed h = cc

module _ {S Cert : Type 0} (reg : UserRegistry S) (checks : Checks Cert) (wire : Wire) (max : ℤ)
    (random : Text) where
  abbrev reply : Result Text → HttpResponse
  reply (ok tok) = record { status = 200; body = some (wire.render tok) }
  reply (err e) = record { status = wire.error_status e; body = some (wire.render_error e) }

  handled : Result Request → S → Result Text × S
  handled (err e) s = (err e, s)
  handled (ok r) s = handle_register reg max random wire.parse r.body s

  -- the wrapper, and the handler behind it
  unfoldable pub register_endpoint : HttpRequest → Method S Text
  unfolding handled
  register_endpoint req s =
      let (r, s') = serve_http reg checks true (auth_wrapper (codes "register")) (arrives req) s in
      handled r s'

  abbrev pub server_network : Network S
  server_network = record {
    accepts_url = wire.accepts_url;
    do_request = λ req s. let (r, s') = register_endpoint req s in (some (reply r), s');
    error_body = wire.error_body;
  }

  register_wrapper :
      ((auth_wrapper (codes "register")).basic ≡ false)
      × ((auth_wrapper (codes "register")).token ≡ true)
  unfolding auth_wrapper text_eq
  register_wrapper = (refl, refl)

  register_endpoint_sound :
      (req : HttpRequest) (q : RegisterRequest) (s : S) (tok : Text)
      → wire.parse req.body ≡ some q
      → (register_endpoint req s).0 ≡ ok tok
      → register_user reg max random q.user q.type q.group q.attributes q.caller_id [] s
        ≡ (ok tok, (register_endpoint req s).1)
  unfolding register_endpoint handled handle_register
  register_endpoint_sound req q s tok parsed h =
      let served = serve_http reg checks true (auth_wrapper (codes "register")) (arrives req) s in
      elim (Result-cases served.0) [
        | inr (x, e) ↦ absurd (ground arith)
        | inl (r, e) ↦
            let ((body, cert, given, verified, live, seen, named), same) =
              serve_http_token reg checks (auth_wrapper (codes "register")) (arrives req) r s
                register_wrapper.0 register_wrapper.1 e in
            let there : r.body ≡ some req.body = ap (λ (t : Request). t.body) named in
            let done = rw (e, same, there, parsed) at h in
            rw (e, same, there, parsed)
              (λ k. (
                done k,
                (register_user reg max random q.user q.type q.group q.attributes q.caller_id []
                    s).1,
              ))
      ]

  send_post-ok :
      (req : HttpRequest) (s : S) (tok : Text)
      → (register_endpoint req s).0 ≡ ok tok
      → send_post server_network req s ≡ (received (wire.render tok), (register_endpoint req s).1)
  unfolding send_post
  send_post-ok req s tok h = rw h

  send_post-err :
      (req : HttpRequest) (s : S) (e : Error)
      → 400 ≤ wire.error_status e
      → (register_endpoint req s).0 ≡ err e
      → posted_result (send_post server_network req s).0 ≡ err library_error
  unfolding send_post
  send_post-err req s e high h = rw h (ground (arith, high))

  module _ {Pub Priv : Type 0} (lib : NetLib) (c : Crypto Cert Pub Priv) (json : ClientJson) where
    -- If Register returns a secret to the client, then on the server RegisterUser, called with the fields
    -- of the request and with the name of the client's registrar, returned a token whose text in
    -- base64.StdEncoding the secret is, and left the registry as it now is. The server reads a request as the client wrote it,
    -- answers an error with a status of 400 or more, and the client reads from a response the text that
    -- encoding/json writes for the bytes of a token.
    pub register-register_user :
        (req : RegistrationRequest) (i : Identity) (s : S) (secret : Text)
        → ((q : RegisterRequest) (body : Text)
            → json.register_request q ≡ some body
            → wire.parse body ≡ some q)
        → ((e : Error) → 400 ≤ wire.error_status e)
        → ((tok : Text)
            → json.response_result (wire.render tok) ≡ json_string (wire.std_encode tok))
        → req.registrar ≡ some i
        → (register lib server_network c json req s).0 ≡ returned secret
        → (tok : Text) × (register_user reg max random req.name req.type req.group req.attributes
              i.name [] s
            ≡ (ok tok, (register lib server_network c json req s).1))
          × (secret ≡ wire.std_encode tok)
    unfolding register post
    register-register_user req i s secret reads refuses renders has h =
        let q = register_body lib server_network c json req i in
        elim (Bool-cases (is_empty req.name)) [
          | inl e ↦ absurd (ground arith)
          | inr e ↦ elim (Bool-cases (is_empty req.group)) [
            | inl f ↦ absurd (ground arith)
            | inr f ↦ elim (Option-cases (json.register_request q)) [
              | inl g ↦ absurd (ground arith)
              | inr (body, g) ↦
                  elim (Result-cases
                    (post_request lib server_network c json i (codes "register") body)) [
                      | inr (x, k) ↦ absurd (ground arith)
                      | inl (sent, k) ↦
                          let at_body : wire.parse sent.body ≡ some q =
                            ap wire.parse (
                              post_request-body lib server_network c json i (codes "register") body
                                sent k)
                            ∙ reads q body g in
                          elim (Result-cases (register_endpoint sent s).0) [
                            | inr (x, l) ↦ absurd (
                                returned-ne-failed
                                  (rw (e, f, has, g, k, send_post-err sent s x (refuses x) l) at h))
                            | inl (tok, l) ↦
                                let there = send_post-ok sent s tok l in
                                let same : wire.std_encode tok ≡ secret =
                                  returned-injective
                                    (rw (e, f, has, g, k, there, renders tok) at h) in
                                (
                                  tok,
                                  rw (e, f, has, g, k, there)
                                      (register_endpoint_sound sent q s tok at_body l),
                                  sym same,
                                )
                          ]
                    ]
            ]
          ]
        ]

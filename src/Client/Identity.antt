-- ===== src/Client/Identity.antt =====
-- lib/identity.go, with the signer and the verifier that hold its key and certificate (lib/signer.go,
-- lib/verifier.go), and Register of lib/client.go. X.509 and JSON are parameters.
use copfvtci.Prelude.{
  ◌≡◌, sym, ap, ◌∙◌, Option, none, some, List, Text, codes, is_empty, if◌then◌else◌,
}
use copfvtci.Prelude.Int.{pos}
use copfvtci.Errors.{
  Result, ok, err, Method, ◌>>=◌, ◌>>◌, pure, lift, library_error, cop_error, authorization_failure,
  token_error, Outcome, returned, failed, panicked, ok-injective,
}
use copfvtci.Spi.{Attribute}
use copfvtci.Token.{Crypto, create_token, after, checked}
use copfvtci.Token.Soundness.{after-eq-ok}
use copfvtci.Revoke.{RevocationRequest}
use copfvtci.Register.Handler.{RegisterRequest}
use copfvtci.Client.Url.{NetLib}
use copfvtci.Client.Http.{
  Client, HttpRequest, Network, new_post, new_post-body, send_post, posted_result,
}

-- Identity; `none` is a nil slice. The key and the certificate stand in its TemporalSigner.
pub record Identity : Type 0 where
  pub client : Client
  pub name : Text
  pub key : Option Text
  pub cert : Option Text

-- newIdentity
abbrev pub new_identity : Client → Text → Option Text → Option Text → Identity
new_identity client name key cert = record { client = client; name = name; key = key; cert = cert }

-- idp.RegistrationRequest
pub record RegistrationRequest : Type 0 where
  pub name : Text
  pub type : Text
  pub group : Text
  pub attributes : List Attribute
  pub registrar : Option Identity

-- the Result of an api.Response: a JSON string, another value, or null
pub data JsonValue : Type 0 where
  json_string : Text → JsonValue
  json_other json_null : JsonValue

-- the JSON texts of the requests, `none` if encoding fails, and the Result of a response
pub record ClientJson : Type 0 where
  pub register_request : RegisterRequest → Option Text
  pub revocation_request : RevocationRequest → Option Text
  pub response_result : Text → JsonValue

-- `x.(string)`
abbrev pub as_string : JsonValue → Outcome Text
as_string (json_string s) = returned s
as_string json_other = panicked
as_string json_null = panicked

abbrev pub or_library_error : {A : Type 0} → Option A → Result A
or_library_error none = err library_error
or_library_error (some a) = ok a

-- `return cop.WrapError(tokenerr, 1, "test")`
abbrev pub token_or_error : Result Text → Result Text
token_or_error (err e) = err token_error
token_or_error (ok token) = ok token

module _ {W Cert Pub Priv : Type 0} (lib : NetLib) (net : Network W) (c : Crypto Cert Pub Priv)
    (json : ClientJson) where
  abbrev with_token : HttpRequest → Option Text → Option Text → Text → Result HttpRequest
  with_token req none key body = err (cop_error authorization_failure)
  with_token req (some cert) none body = err (cop_error authorization_failure)
  with_token req (some cert) (some key) body =
      after (token_or_error (create_token c cert key body))
        (λ token. ok (record req { authorization = token }))

  -- addTokenAuthHdr
  unfoldable pub add_token_auth_hdr : Identity → HttpRequest → Text → Result HttpRequest
  add_token_auth_hdr i req body = with_token req i.cert i.key body

  with_token-body :
      (req req' : HttpRequest) (cert key : Option Text) (body : Text)
      → with_token req cert key body ≡ ok req'
      → req'.body ≡ req.body
  with_token-body req req' none key body h = absurd (cc)
  with_token-body req req' (some cert) none body h = absurd (cc)
  with_token-body req req' (some cert) (some key) body h =
      let (token, made, same) =
        after-eq-ok (token_or_error (create_token c cert key body)) _ req' h in
      ap (λ (r : HttpRequest). r.body) (sym (ok-injective same))

  -- the request that Post sends
  unfoldable pub post_request : Identity → Text → Text → Result HttpRequest
  post_request i endpoint body =
      after (new_post net lib i.client endpoint body) (λ req. add_token_auth_hdr i req body)

  pub post_request-body :
      (i : Identity) (endpoint body : Text) (req : HttpRequest)
      → post_request i endpoint body ≡ ok req
      → req.body ≡ body
  unfolding post_request add_token_auth_hdr
  post_request-body i endpoint body req h =
      let (q, made, rest) = after-eq-ok (new_post net lib i.client endpoint body) _ req h in
      with_token-body q req i.cert i.key body rest
      ∙ new_post-body net lib i.client endpoint body q made

  -- Post
  unfoldable pub post : Identity → Text → Text → Method W Text
  post i endpoint body = do
    req ← lift (post_request i endpoint body)
    (λ w. let (p, w') = send_post net req w in (posted_result p, w'))

  -- the request that Register puts into its body
  abbrev pub register_body : RegistrationRequest → Identity → RegisterRequest
  register_body req registrar = record {
    user = req.name;
    group = req.group;
    type = req.type;
    attributes = req.attributes;
    caller_id = registrar.name;
  }

  abbrev secret_of : Result Text → Outcome Text
  secret_of (err e) = failed e
  secret_of (ok buf) = as_string (json.response_result buf)

  abbrev register_as : RegistrationRequest → Option Identity → W → Outcome Text × W
  register_as req none w = (failed library_error, w)
  register_as req (some registrar) w =
      let (r, w') =
        (do
          body ← lift (or_library_error (json.register_request (register_body req registrar)))
          post registrar (codes "register") body)
          w in
      (secret_of r, w')

  -- Client.Register: the secret
  unfoldable pub register : RegistrationRequest → W → Outcome Text × W
  register req w =
      if is_empty req.name
      then (failed library_error, w)
      else if is_empty req.group
      then (failed library_error, w)
      else register_as req req.registrar w

  -- Identity.Revoke
  unfoldable pub revoke : Identity → RevocationRequest → Method W (Unit {0})
  revoke i req = do
    body ← lift (or_library_error (json.revocation_request req))
    post i (codes "revoke") body
    pure tt

  -- GetSerial: `serial` and `aki` print a certificate's serial number and authority key
  unfoldable pub get_serial : (Cert → Text) → (Cert → Text) → Option Text → Result (Text × Text)
  get_serial serial aki none = err library_error
  get_serial serial aki (some pem) =
      checked (c.pem_decode pem)
        λ block. checked (c.parse_certificate block) λ x. ok (serial x, aki x)

  -- RevokeSelf
  unfoldable pub revoke_self : (Cert → Text) → (Cert → Text) → Identity → Method W (Unit {0})
  revoke_self serial aki i = do
    (s, a) ← lift (get_serial serial aki i.cert)
    revoke i (record { name = i.name; serial = s; aki = a; reason = pos 0 })

-- ===== src/Client/Enrolling.antt =====
-- Enroll, Reenroll and GenCSR of lib/client.go, and the requests that they send. CFSSL's CSR generator
-- and SplitHosts, JSON, base64 and the header of basic authentication are parameters.
use copfvtci.Prelude.{
  ◌≡◌, Bool, not, Option, none, some, List, [], ◌∷◌, Text, codes, is_empty, if◌then◌else◌,
}
use copfvtci.Errors.{
  Result, ok, err, ◌>>=◌, pure, lift, library_error, cop_error, enrolling_user_error, Outcome,
  returned, failed, panicked,
}
use copfvtci.Token.{Crypto, after}
use copfvtci.Client.Url.{NetLib}
use copfvtci.Client.Http.{Client, HttpRequest, Network, new_post, send_post, posted_result}
use copfvtci.Client.Identity.{
  Identity, ClientJson, JsonValue, json_null, as_string, new_identity, or_library_error, post,
}

-- idp.CSRInfo; `none` is nil, and a name, a key request and a CA configuration are opaque
pub record CsrInfo : Type 0 where
  pub names : Option (List Text)
  pub hosts : Option (List Text)
  pub key_request : Option Text
  pub ca : Option Text
  pub serial_number : Text

-- csr.CertificateRequest, with its fields of the same names
pub record CertificateRequest : Type 0 where
  pub cn : Text
  pub info : CsrInfo

-- signer.SignRequest
pub record SignRequest : Type 0 where
  pub hosts : List Text
  pub request : Text
  pub profile : Text
  pub label : Text

pub record EnrollmentRequest : Type 0 where
  pub name : Text
  pub secret : Text
  pub hosts : Text
  pub profile : Text
  pub label : Text
  pub csr : Option CsrInfo

pub record ReenrollmentRequest : Type 0 where
  pub id : Option Identity
  pub hosts : Text
  pub profile : Text
  pub label : Text
  pub csr : Option CsrInfo

-- an api.Response
pub record Response : Type 0 where
  pub success : Bool
  pub result : JsonValue

pub record EnrollLib : Type 0 where
  -- csr.ParseRequest: the CSR and its key
  pub parse_request : CertificateRequest → Option (Text × Text)
  pub split_hosts : Text → List Text
  pub hostname : Text
  pub sign_request : SignRequest → Option Text
  pub response : Text → Option Response
  -- what StdEncoding.DecodeString returns, its error dropped
  pub b64_decoded : Text → Text
  -- the header that SetBasicAuth sets
  pub basic_header : Text → Text → Text

abbrev default_hosts : Text → Option (List Text)
default_hosts hostname = if not (is_empty hostname) then some (hostname ∷ []) else none

abbrev hosts_or : Option (List Text) → Text → Option (List Text)
hosts_or none hostname = default_hosts hostname
hosts_or (some hosts) hostname = some hosts

-- newCertificateRequest
unfoldable pub new_certificate_request : Text → Option CsrInfo → CsrInfo
new_certificate_request hostname none = record {
  names = none;
  hosts = default_hosts hostname;
  key_request = none;
  ca = none;
  serial_number = [];
}
new_certificate_request hostname (some req) = record req { hosts = hosts_or req.hosts hostname }

module _ (el : EnrollLib) where
  -- GenCSR
  unfoldable pub gen_csr : Option CsrInfo → Text → Result (Text × Text)
  gen_csr req id =
      or_library_error
        (el.parse_request (record { cn = id; info = new_certificate_request el.hostname req }))

  -- the body of a signing request
  unfoldable pub sign_body : Text → Text → Text → Text → Result Text
  sign_body hosts profile label csr = or_library_error (
      el.sign_request
        (record { hosts = el.split_hosts hosts; request = csr; profile = profile; label = label }))

  abbrev issued : Client → Text → Text → Bool → Outcome Text → Outcome Identity
  issued client id key success (returned cert) =
      if success
      then returned (new_identity client id (some key) (some (el.b64_decoded cert)))
      else failed (cop_error enrolling_user_error)
  issued client id key success (failed e) = failed e
  issued client id key success panicked = panicked

  abbrev pub identity_in : Client → Text → Text → Option Response → Outcome Identity
  identity_in client id key none = failed library_error
  identity_in client id key (some resp) = issued client id key resp.success (as_string resp.result)

  -- newIdentityFromResponse: the Result is asserted to be a string before it is compared with nil
  unfoldable pub new_identity_from_response : Client → Text → Text → Text → Outcome Identity
  new_identity_from_response client id buf key = identity_in client id key (el.response buf)

  abbrev pub from_response : Client → Text → Result (Text × Text) → Outcome Identity
  from_response client id (err e) = failed e
  from_response client id (ok (buf, key)) = new_identity_from_response client id buf key

  module _ {W Cert Pub Priv : Type 0} (lib : NetLib) (net : Network W)
      (c : Crypto Cert Pub Priv) where
    -- the request that Enroll sends, and the key of its CSR
    unfoldable pub enroll_request : Client → EnrollmentRequest → Result (HttpRequest × Text)
    enroll_request client req = after (gen_csr req.csr req.name) λ (csr, key).
        after (sign_body req.hosts req.profile req.label csr) λ body.
          after (new_post net lib client (codes "enroll") body)
            λ r. ok (record r { authorization = el.basic_header req.name req.secret }, key)

    unfoldable pub enroll : Client → EnrollmentRequest → W → Outcome Identity × W
    enroll client req w =
        let (r, w') =
          (do
            (post, key) ← lift (enroll_request client req)
            (λ w.
                let (p, w') = send_post net post w in
                (after (posted_result p) (λ buf. ok (buf, key)), w')))
            w in
        (from_response client req.name r, w')

  module _ {W Cert Pub Priv : Type 0} (lib : NetLib) (net : Network W) (c : Crypto Cert Pub Priv)
      (json : ClientJson) where
    abbrev reenroll_as : Client → ReenrollmentRequest → Option Identity → W → Outcome Identity × W
    reenroll_as client req none w = (failed library_error, w)
    reenroll_as client req (some id) w =
        let (r, w') =
          (do
            (csr, key) ← lift (gen_csr req.csr id.name)
            body ← lift (sign_body req.hosts req.profile req.label csr)
            buf ← post lib net c json id (codes "reenroll") body
            pure (buf, key))
            w in
        (from_response client id.name r, w')

    unfoldable pub reenroll : Client → ReenrollmentRequest → W → Outcome Identity × W
    reenroll client req w = reenroll_as client req req.id w

  -- A response whose Result is null panics, whether or not it reports success: the test for it comes after
  -- the assertion that it is a string.
  pub new_identity_from_response_null :
      (client : Client) (id buf key : Text) (success : Bool)
      → el.response buf ≡ some (record { success = success; result = json_null })
      → new_identity_from_response client id buf key ≡ panicked
  unfolding new_identity_from_response
  new_identity_from_response_null client id buf key success e = rw e

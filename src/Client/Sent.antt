-- ===== src/Client/Sent.antt =====
-- What lib/identity.go sends, at the server of cli/server/auth.go.
use copfvtci.Prelude.{◌≡◌, refl, Bool, true, false, Option, none, some, Text}
use copfvtci.Errors.{ok}
use copfvtci.Spi.{UserRegistry}
use copfvtci.Auth.{AuthHandler, Request, serve_http, set_eid}
use copfvtci.Token.{Crypto, verify_token}
use copfvtci.Token.Soundness.{CryptoLaws, Pair, verify_token-create_token}
use copfvtci.TCertHandler.Caller.{checks_with, verify_token-ok}
use copfvtci.Client.Url.{NetLib, get_url}
use copfvtci.Client.Http.{HttpRequest, Network, new_post}
use copfvtci.Client.Identity.{Identity, ClientJson, add_token_auth_hdr, post_request}

-- the request as the server's wrapper reads it
abbrev pub arrives : HttpRequest → Request
arrives req = record { authorization = req.authorization; body = some req.body; eid = none }

module _ {W Cert Pub Priv S : Type 0} (lib : NetLib) (net : Network W) (c : Crypto Cert Pub Priv)
    (json : ClientJson) (reg : UserRegistry S) (basic_auth : Text → Option (Text × Text))
    (revoked_or_expired checked : Cert → Bool) (common_name : Cert → Text) where
  token_passes :
      (token body : Text) (x : Cert) (ah : AuthHandler) (url : Text) (s : S)
      → ah.token ≡ true
      → verify_token c token body ≡ ok x
      → basic_auth token ≡ none
      → revoked_or_expired x ≡ false
      → checked x ≡ true
      → serve_http reg
          (checks_with c basic_auth revoked_or_expired checked common_name)
          true
          ah
          (arrives (record { url = url; authorization = token; body = body }))
          s
        ≡ (
          ok (
              set_eid
                (common_name x)
                (arrives (record { url = url; authorization = token; body = body }))),
          s,
        )
  unfolding serve_http
  token_passes token body x ah url s tk good no_basic live seen =
      rw (verify_token-ok c token body x good, no_basic, tk, good, live, seen)

  -- A request that an identity posts, with a certificate in PEM form and the private key that belongs to
  -- it, goes through the server's authentication on every endpoint that takes tokens, if the certificate
  -- is checked there and neither revoked nor expired, and the header is not read as basic credentials.
  -- It goes on under the certificate's common name, and the registry is not touched.
  pub serve_http-post_request :
      CryptoLaws c
      → (i : Identity) (endpoint body url cert key block : Text) (x : Cert) (ah : AuthHandler)
        (s : S)
      → i.cert ≡ some cert
      → i.key ≡ some key
      → get_url lib i.client.server_url endpoint ≡ ok url
      → net.accepts_url url ≡ true
      → c.pem_decode cert ≡ some block
      → c.parse_certificate block ≡ some x
      → Pair c key (c.public_key x)
      → ah.token ≡ true
      → ((token : Text) → verify_token c token body ≡ ok x → basic_auth token ≡ none)
      → revoked_or_expired x ≡ false
      → checked x ≡ true
      → (req : HttpRequest) × (post_request lib net c json i endpoint body ≡ ok req)
        × (req.url ≡ url)
        × (req.body ≡ body)
        × (serve_http reg
              (checks_with c basic_auth revoked_or_expired checked common_name)
              true
              ah
              (arrives req)
              s
            ≡ (ok (set_eid (common_name x) (arrives req)), s))
  unfolding post_request new_post add_token_auth_hdr
  serve_http-post_request laws i endpoint body url cert key block x ah s has_cert has_key at_url
        accepted pem parse pair tk no_basic live seen =
      let (token, made, good) =
        verify_token-create_token c laws cert block key body x pem parse pair in
      let req : HttpRequest = record { url = url; authorization = token; body = body } in
      (
        req,
        rw (at_url, accepted, has_cert, has_key, made),
        refl,
        refl,
        token_passes token body x ah url s tk good (no_basic token good) live seen,
      )

-- ===== src/Server.antt =====
-- cli/server/server.go: the table of endpoints, registerHandlers, and what http.DefaultServeMux then does
-- with a request; httpBox.Open. The constructors of CFSSL's handlers and path.Clean are parameters.
pub mod Endpoints
pub mod Table
pub mod Registered
pub mod Routing
pub mod Initialized
pub mod Serving
pub mod Started
use copfvtci.Prelude.{
  ℕ, ◌++◌, Bool, true, false, not, ◌&&◌, Option, none, some, List, [], ◌∷◌, Text, text_eq, codes,
  is_empty, length, ltb, ◌==◌, if◌then◌else◌,
}
use copfvtci.Strings.{has_prefix}
use copfvtci.Errors.{
  Error, Result, ok, err, library_error, Run, finished, errored, crashed, exited, then_run, run_of,
}
use copfvtci.Auth.{AuthHandler, auth_wrapper, wrapped_path}
use copfvtci.Util.{ends_in}

-- the handlers, by the constructor that makes them
pub data Handler : Type 0 where
  register enroll reenroll revoke tcert : Handler
  sign auth_sign info crl cert_generator bundle key_generator : Handler
  init_ca scan scan_info cert_info ocsp_sign file_server : Handler

-- what the constructors read: the signers, the configuration, the result of NewTCertHandler, and the
-- results of CFSSL's constructors and of rice.FindBox
pub record Setup : Type 0 where
  pub enroll_signer : Bool
  pub ocsp_signer : Bool
  pub ca_bundle_file : Text
  pub int_bundle_file : Text
  pub new_tcert : Run (Unit {0})
  pub new_sign : Result (Unit {0})
  pub new_auth_sign : Result (Unit {0})
  pub new_info : Result (Unit {0})
  pub set_bundler : Text → Text → Result (Unit {0})
  pub new_bundle : Text → Text → Result (Unit {0})
  pub new_key : Result (Unit {0})
  pub new_scan : Text → Result (Unit {0})
  pub find_box : Result (Unit {0})

-- `return handler, err` of a constructor
abbrev pub made : Run (Unit {0}) → Handler → Run Handler
made r h = then_run r λ _. finished h

module _ (s : Setup) where
  -- `if signer == nil { return nil, errBadSigner }`
  abbrev pub with_signer : Bool → Run Handler → Run Handler
  with_signer true rest = rest
  with_signer false rest = errored library_error

  abbrev pub bundled : Run (Unit {0})
  bundled =
      if not (is_empty s.ca_bundle_file) && not (is_empty s.int_bundle_file)
      then run_of (s.set_bundler s.ca_bundle_file s.int_bundle_file)
      else finished tt

  -- the map `endpoints`: each path with the result of its constructor
  unfoldable pub endpoints : List (Text × Run Handler)
  endpoints =
      (codes "register", finished register)
      ∷ (codes "enroll", finished enroll)
      ∷ (codes "reenroll", finished reenroll)
      ∷ (codes "revoke", finished revoke)
      ∷ (codes "tcert", made s.new_tcert tcert)
      ∷ (codes "sign", with_signer s.enroll_signer (made (run_of s.new_sign) sign))
      ∷ (codes "authsign", with_signer s.enroll_signer (made (run_of s.new_auth_sign) auth_sign))
      ∷ (codes "info", with_signer s.enroll_signer (made (run_of s.new_info) info))
      ∷ (codes "gencrl", with_signer s.enroll_signer (finished crl))
      ∷ (codes "newcert", with_signer s.enroll_signer (made bundled cert_generator))
      ∷ (codes "bundle", made (run_of (s.new_bundle s.ca_bundle_file s.int_bundle_file)) bundle)
      ∷ (codes "newkey", made (run_of s.new_key) key_generator)
      ∷ (codes "init_ca", finished init_ca)
      ∷ (codes "scan", made (run_of (s.new_scan s.ca_bundle_file)) scan)
      ∷ (codes "scaninfo", finished scan_info)
      ∷ (codes "certinfo", finished cert_info)
      ∷ (codes "ocspsign", with_signer s.ocsp_signer (finished ocsp_sign))
      ∷ (codes "/", made (run_of s.find_box) file_server)
      ∷ []

-- the patterns of http.DefaultServeMux, each with the wrapper and the handler behind it
abbrev pub Mux : Type 0
Mux = List (Text × (AuthHandler × Handler))

unfoldable pub entry : Mux → Text → Option (AuthHandler × Handler)
entry [] pattern = none
entry ((p, h) ∷ mux) pattern = if text_eq p pattern then some h else entry mux pattern

-- http.Handle, which panics where the pattern is there already
abbrev pub handle : Text → AuthHandler × Handler → Mux → Run Mux
handle pattern h mux = elim (entry mux pattern) [
  | some other ↦ crashed
  | none ↦ finished ((pattern, h) ∷ mux)
]

-- one round of the loop: an endpoint whose constructor fails is left out
abbrev pub enabled : Text → Run Handler → Mux → Run Mux
enabled path (finished h) mux = handle (wrapped_path path) (auth_wrapper path, h) mux
enabled path (errored e) mux = finished mux
enabled path crashed mux = crashed
enabled path exited mux = exited

-- registerHandlers, over the endpoints in the order in which Go takes them
unfoldable pub register_handlers : List (Text × Run Handler) → Mux → Run Mux
register_handlers [] mux = finished mux
register_handlers ((path, handler) ∷ rest) mux =
    then_run (enabled path handler mux) λ mux'. register_handlers rest mux'

-- pathMatch of net/http: a pattern that ends in a slash stands for all the paths below it
unfoldable pub path_match : Text → Text → Bool
path_match pattern path =
    if ends_in b'/' pattern then has_prefix path pattern else text_eq pattern path

-- ServeMux.match: the longest pattern that matches
unfoldable pub mux_match : Mux → Text → Option (Text × (AuthHandler × Handler))
mux_match [] path = none
mux_match ((p, h) ∷ mux) path =
    let rest = mux_match mux path in
    if path_match p path
    then elim rest [
      | none ↦ some (p, h)
      | some (q, k) ↦ if ltb (length q) (length p) then some (p, h) else some (q, k)
    ]
    else rest

-- what ServeMux answers a request with
pub data Routed : Type 0 where
  redirected : Text → Routed
  not_found : Routed
  reached : AuthHandler → Handler → Routed

abbrev pub routed : Option (Text × (AuthHandler × Handler)) → Routed
routed none = not_found
routed (some (p, (a, h))) = reached a h

-- a pattern that is the path and a slash redirects there, unless the path is a pattern itself
abbrev pub implied : Option (AuthHandler × Handler) → Text → Routed → Routed
implied (some h) path rest = redirected (path ++ b'/' ∷ [])
implied none path rest = rest

abbrev pub exact : Mux → Text → Option (AuthHandler × Handler) → Routed
exact mux path (some (a, h)) = reached a h
exact mux path none = implied (entry mux (path ++ b'/' ∷ [])) path (routed (mux_match mux path))

-- ServeMux.Handler, for any method but CONNECT
unfoldable pub route : (Text → Text) → Mux → Text → Routed
route clean mux path =
    if text_eq (clean path) path then exact mux path (entry mux path) else redirected (clean path)

-- httpBox.Open; `box` opens a file of the box
unfoldable pub open_static : {File : Type 0} → (Text → Result File) → Text → Result File
open_static box name =
    if has_prefix name (codes "/api/v1/cfssl/")
    then err library_error
    else if text_eq name (codes "/scan")
    then box (codes "/index.html")
    else if text_eq name (codes "/bundle")
    then box (codes "/index.html")
    else box name

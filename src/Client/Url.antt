-- ===== src/Client/Url.antt =====
-- normalizeURL and getURL of lib/client.go. net/url, net, strconv and strings.TrimSpace are parameters.
use copfvtci.Prelude.{
  ◌≡◌, ◌⊎◌, refl, sym, ap, ◌∙◌, inl, inr, false, not, ◌&&◌, Option, none, some, [], ◌∷◌, ◌++◌, Text,
  text_eq, text_eq_iff, codes, is_empty, is_empty_nil, arith, Bool-cases, Option-cases,
  if◌then◌else◌,
}
use copfvtci.Prelude.Int.{ℤ}
use copfvtci.Errors.{Result, ok, err, library_error, cop_error, cfssl, ok-injective}
use copfvtci.Ldap.{contains}

-- url.URL, as far as it is read and written
pub record Url : Type 0 where
  pub scheme : Text
  pub opaque : Text
  pub host : Text
  pub path : Text

pub record NetLib : Type 0 where
  pub trim_space : Text → Text
  pub parse : Text → Option Url
  -- URL.String, as %s prints it
  pub string : Url → Text
  pub join_host_port : Text → Text → Text
  pub split_host_port : Text → Option (Text × Text)
  pub atoi : Text → Option ℤ

abbrev pub default_server_port : Text
default_server_port = codes "8888"

module _ (lib : NetLib) where
  -- the chain that fills in the host
  unfoldable pub with_host : Url → Url
  with_host u =
      if not (is_empty u.opaque)
      then record u { host = lib.join_host_port u.scheme u.opaque; opaque = [] }
      else if not (is_empty u.path) && not (contains b':' u.path)
      then record u { host = lib.join_host_port u.path default_server_port; path = [] }
      else if is_empty u.scheme
      then record u { host = u.path; path = [] }
      else u

  unfoldable pub with_scheme : Url → Url
  with_scheme u = if text_eq u.scheme (codes "https") then u else record u { scheme = codes "http" }

  -- `_, port, err := net.SplitHostPort(…)`, tried again with the default port
  unfoldable pub port_of : Text → Option (Text × Text)
  port_of host = elim (lib.split_host_port host) [
    | some hp ↦ some hp
    | none ↦ lib.split_host_port (host ++ b':' ∷ default_server_port)
  ]

  checked_number : Url → Text → Option ℤ → Result Url
  checked_number u port none = err library_error
  checked_number u port (some n) = ok u

  checked_port : Url → Option (Text × Text) → Result Url
  unfolding checked_number
  checked_port u none = err library_error
  checked_port u (some (host, port)) =
      if is_empty port then ok u else checked_number u port (lib.atoi port)

  normalized : Option Url → Result Url
  unfolding checked_port
  normalized none = err library_error
  normalized (some u) = let v = with_scheme (with_host u) in checked_port v (port_of v.host)

  unfoldable pub normalize_url : Text → Result Url
  unfolding normalized
  normalize_url addr = normalized (lib.parse (lib.trim_space addr))

  -- getURL
  url_for : Text → Result Url → Result Text
  url_for endpoint (err e) = err (cop_error cfssl)
  url_for endpoint (ok u) = ok (lib.string u ++ codes "/api/v1/cfssl/" ++ endpoint)

  unfoldable pub get_url : Text → Text → Result Text
  unfolding url_for
  get_url server_url endpoint = url_for endpoint (normalize_url server_url)

  -- a port that passes: none, or a number
  abbrev pub NumberPort : Text → Type 0
  NumberPort port = (port ≡ []) ⊎ ((n : ℤ) × (lib.atoi port ≡ some n))

  with_scheme_lem :
      (u : Url)
      → (((with_scheme u).scheme ≡ codes "http") ⊎ ((with_scheme u).scheme ≡ codes "https"))
        × ((with_scheme u).opaque ≡ u.opaque)
  unfolding with_scheme
  with_scheme_lem u = elim (Bool-cases (text_eq u.scheme (codes "https"))) [
    | inl e ↦ rw e (inr ((text_eq_iff u.scheme (codes "https")).0 e), refl)
    | inr e ↦ rw e (inl refl, refl)
  ]

  with_scheme-host : (u : Url) → (with_scheme u).host ≡ u.host
  unfolding with_scheme
  with_scheme-host u = elim (Bool-cases (text_eq u.scheme (codes "https"))) [
    | inl e ↦ rw e
    | inr e ↦ rw e
  ]

  path_host :
      (u : Url)
      → u.opaque ≡ []
      → is_empty u.path ≡ false
      → contains b':' u.path ≡ false
      → (with_host u).host ≡ lib.join_host_port u.path default_server_port
  unfolding with_host
  path_host u plain path no_colon = ground (arith, plain, path, no_colon)

  with_host-opaque : (u : Url) → (with_host u).opaque ≡ []
  unfolding with_host
  with_host-opaque u = elim (Bool-cases (is_empty u.opaque)) [
    | inl e ↦ rw e (ground (arith, is_empty_nil u.opaque e))
    | inr e ↦ rw e
  ]

  checked_port_sound :
      (u v : Url) (hp : Option (Text × Text))
      → checked_port u hp ≡ ok v
      → (u ≡ v) × ((host port : Text) × (hp ≡ some (host, port)) × NumberPort port)
  unfolding checked_port checked_number
  checked_port_sound u v none h = absurd (cc)
  checked_port_sound u v (some (host, port)) h = elim (Bool-cases (is_empty port)) [
    | inl e ↦ (ok-injective (rw e at h), (host, port, refl, inl (is_empty_nil port e)))
    | inr e ↦ elim (Option-cases (lib.atoi port)) [
      | inl f ↦ absurd (ground arith)
      | inr (n, f) ↦ (ok-injective (rw (e, f) at h), (host, port, refl, inr (n, f)))
    ]
  ]

  -- A URL that normalizeURL accepts has the scheme http or https and no opaque part, and its host has a
  -- port that is absent or a number, where a host without one is read with the default port.
  pub normalize_url_sound :
      (addr : Text) (v : Url)
      → normalize_url addr ≡ ok v
      → ((v.scheme ≡ codes "http") ⊎ (v.scheme ≡ codes "https"))
        × (v.opaque ≡ [])
        × ((host port : Text) × (port_of v.host ≡ some (host, port)) × NumberPort port)
  unfolding normalize_url normalized
  normalize_url_sound addr v h = elim (Option-cases (lib.parse (lib.trim_space addr))) [
    | inl e ↦ absurd (ground arith)
    | inr (u, e) ↦
        let w = with_scheme (with_host u) in
        let (same, (host, port, split, number)) =
          checked_port_sound w v (port_of w.host) (rw e at h) in
        let (scheme, opaque) = with_scheme_lem (with_host u) in
        rw (← same) (scheme, opaque ∙ with_host-opaque u, (host, port, split, number))
  ]

  -- A URL with a path that holds no colon, if only a slash, loses its host: the path stands in for it.
  pub normalize_url_path :
      (addr : Text) (u v : Url)
      → lib.parse (lib.trim_space addr) ≡ some u
      → u.opaque ≡ []
      → is_empty u.path ≡ false
      → contains b':' u.path ≡ false
      → normalize_url addr ≡ ok v
      → v.host ≡ lib.join_host_port u.path default_server_port
  unfolding normalize_url normalized
  normalize_url_path addr u v parsed plain path no_colon h =
      let w = with_scheme (with_host u) in
      let (same, found) = checked_port_sound w v (port_of w.host) (rw parsed at h) in
      ap (λ (t : Url). t.host) (sym same)
      ∙ with_scheme-host (with_host u)
      ∙ path_host u plain path no_colon

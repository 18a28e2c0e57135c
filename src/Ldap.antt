-- ===== src/Ldap.antt =====
-- cli/server/ldap/client.go: the user registry on an LDAP server. What Go's net/url, net, strconv and fmt
-- and the LDAP library answer are parameters; the server's answers may differ from call to call.
pub mod Lookup
pub mod Server
use copfvtci.Prelude.{
  ℕ, zero, suc, ◌+◌, ◌-◌, Bool, true, false, not, ◌&&◌, Option, none, some, List, [], ◌∷◌, Text,
  text_eq, codes, length, is_empty, if◌then◌else◌, ◌==◌,
}
use copfvtci.Prelude.Int.{ℤ}
use copfvtci.Strings.SplitJoin.{split}
use copfvtci.Errors.{
  Error, Result, ok, err, Method, ◌>>=◌, ◌>>◌, pure, raise, require, library_error,
  not_supported_by_ldap, no_ldap_match, many_ldap_matches, ldap_failure, invalid_ldap_config,
}
use copfvtci.Spi.{User, UserRegistry}
use copfvtci.Accessor.{StrMap, map_get}

pub record LdapConfig : Type 0 where
  pub url : Text
  pub base : Text
  pub user_filter : Text
  pub group_filter : Text

-- url.URL, as far as it is read; `user` is the name and the password, "" if there is none
pub record Url : Type 0 where
  pub scheme : Text
  pub host : Text
  pub user : Option (Text × Text)
  pub path : Text

-- url.Parse, net.SplitHostPort and strconv.Atoi
pub record UrlLib : Type 0 where
  pub parse : Text → Option Url
  pub split_host_port : Text → Option (Text × Text)
  pub atoi : Text → Option ℤ

-- Client, without the connection
pub record LdapClient : Type 0 where
  pub host : Text
  pub port : ℤ
  pub use_ssl : Bool
  pub admin_dn : Text
  pub admin_password : Text
  pub base : Text
  pub user_filter : Text
  pub group_filter : Text

-- strings.Index(s, c) >= 0, for one byte
abbrev pub contains : ℕ → Text → Bool
contains c [] = false
contains c (d ∷ s) = if d == c then true else contains c s

unfoldable pub cfg_val : Text → Text → Text
cfg_val val1 val2 = if not (is_empty val1) then val1 else val2

-- `if c.Base != "" && strings.HasPrefix(c.Base, "/") { c.Base = c.Base[1:] }`
abbrev pub without_slash : Text → Text
without_slash [] = []
without_slash (c ∷ s) = if c == b'/' then s else c ∷ s

-- the switch on the scheme
unfoldable pub default_port : Text → Option Text
default_port scheme =
    if text_eq scheme (codes "ldap")
    then some (codes "389")
    else if text_eq scheme (codes "ldaps")
    then some (codes "636")
    else none

-- `if err != nil { return nil, fmt.Errorf(…) }`, then the rest
abbrev pub valid : {A B : Type 0} → Option A → (A → Result B) → Result B
valid none rest = err invalid_ldap_config
valid (some a) rest = rest a

abbrev admin_of : Option (Text × Text) → Text × Text
admin_of none = ([], [])
admin_of (some (name, pass)) = (name, pass)

module _ (lib : UrlLib) where
  -- host and port, the default port where the URL has none
  unfoldable pub host_port : Text → Text → Option (Text × Text)
  host_port host port = if contains b':' host then lib.split_host_port host else some (host, port)

  abbrev client_of : LdapConfig → Url → Text → ℤ → LdapClient
  client_of cfg u host port = record {
    host = host;
    port = port;
    use_ssl = text_eq u.scheme (codes "ldaps");
    admin_dn = (admin_of u.user).0;
    admin_password = (admin_of u.user).1;
    base = without_slash (cfg_val cfg.base u.path);
    user_filter = cfg_val cfg.user_filter (codes "(uid=%s)");
    group_filter = cfg_val cfg.group_filter (codes "(memberUid=%s)");
  }

  unfoldable pub client_from : LdapConfig → Result LdapClient
  client_from cfg =
      if is_empty cfg.url
      then err invalid_ldap_config
      else valid (lib.parse cfg.url) λ u. valid (default_port u.scheme) λ port.
        valid (host_port u.host port)
          λ (host, port'). valid (lib.atoi port') λ n. ok (client_of cfg u host n)

  -- NewClient; `none` is the nil configuration
  unfoldable pub new_client : Option LdapConfig → Result LdapClient
  unfolding client_from
  new_client none = err invalid_ldap_config
  new_client (some cfg) = client_from cfg

-- ldap.Entry, with its GetAttributeValue
pub record Entry : Type 0 where
  pub dn : Text
  pub attribute_value : Text → Text

pub record SearchRequest : Type 0 where
  pub base : Text
  pub filter : Text
  pub attributes : List Text

-- The LDAP library and the server behind it, by the number of the call: Dial or DialTLS (a connection
-- is the number of the call that made it), Bind and Search. Also fmt.Sprintf of a filter.
pub record Directory : Type 0 where
  pub dial : ℕ → LdapClient → Bool
  pub bind : ℕ → ℕ → Text → Text → Bool
  pub search : ℕ → ℕ → SearchRequest → Option (List Entry)
  pub sprintf : Text → Text → Text

-- the cached connection, and how many calls of the library were made
pub record LdapState : Type 0 where
  pub admin_conn : Option ℕ
  pub calls : ℕ

-- no connection is cached yet
abbrev pub unconnected : ℕ → LdapState
unconnected calls = record { admin_conn = none; calls = calls }

abbrev pub ticked : LdapState → LdapState
ticked s = record s { calls = s.calls + 1 }

-- a call of the library, and the error if it fails
abbrev pub call : Bool → Error → Method LdapState (Unit {0})
call true e s = (ok tt, ticked s)
call false e s = (err e, ticked s)

abbrev found : Option (List Entry) → Method LdapState (List Entry)
found none s = (err ldap_failure, ticked s)
found (some es) s = (ok es, ticked s)

-- exactly one match
unfoldable pub the_entry : List Entry → Result Entry
the_entry [] = err no_ldap_match
the_entry (e ∷ []) = ok e
the_entry (e ∷ f ∷ es) = err many_ldap_matches

-- the map of the requested attributes
unfoldable pub attrs_of : Entry → List Text → StrMap → StrMap
attrs_of e [] m = m
attrs_of e (name ∷ names) m =
    attrs_of e names
      ((name, if text_eq name (codes "dn") then e.dn else e.attribute_value name) ∷ m)

-- out[i] = in[size-i-1], for the first `i` of them in front of those already there
unfoldable pub element_at : List Text → ℕ → Text
element_at [] i = []
element_at (x ∷ xs) zero = x
element_at (x ∷ xs) (suc i) = element_at xs i

unfoldable pub reversed_from : List Text → ℕ → ℕ → List Text
reversed_from xs zero i = []
reversed_from xs (suc n) i = element_at xs (length xs - i - 1) ∷ reversed_from xs n (i + 1)

-- reverse
unfoldable pub reverse_slice : List Text → List Text
reverse_slice xs = reversed_from xs (length xs) 0

module _ (dir : Directory) (lc : LdapClient) where
  -- newConnection
  unfoldable pub new_connection : Method LdapState ℕ
  new_connection s =
      (do
        call (dir.dial s.calls lc) ldap_failure
        if not (is_empty lc.admin_dn) && not (is_empty lc.admin_password)
            then call (dir.bind (s.calls + 1) s.calls lc.admin_dn lc.admin_password) ldap_failure
            else pure tt
        pure s.calls)
        s

  cache : ℕ → Method LdapState ℕ
  cache conn s = (ok conn, record s { admin_conn = some conn })

  connect : Option ℕ → Method LdapState ℕ
  unfolding cache
  connect (some conn) = pure conn
  connect none = do conn ← new_connection; cache conn

  -- adminConnect: the cached connection, or a new one
  unfoldable pub admin_connect : Method LdapState ℕ
  unfolding connect
  admin_connect s = connect s.admin_conn s

  unfoldable pub search_user : Text → List Text → ℕ → Method LdapState (List Entry)
  search_user username names conn s =
      found
        (dir.search s.calls conn (record {
          base = lc.base;
          filter = dir.sprintf lc.user_filter username;
          attributes = names;
        }))
        s

  -- User.Login
  unfoldable pub login : Text → Text → Method LdapState (Unit {0})
  login dn password = do
    conn ← new_connection
    (λ s. call (dir.bind s.calls conn dn password) ldap_failure s)

  abbrev pub ldap_user : Entry → List Text → User LdapState
  ldap_user e names = record {
    get_name = e.dn;
    login = login e.dn;
    affiliation_path = reverse_slice (split e.dn b',');
    get_attribute = map_get (attrs_of e names []);
  }

  -- GetUser
  unfoldable pub get_user : Text → List Text → Method LdapState (User LdapState)
  get_user username names = do
    conn ← admin_connect
    es ← search_user username names conn
    (λ s. (the_user (the_entry es) names, s))
    where
      the_user : Result Entry → List Text → Result (User LdapState)
      the_user (err x) names = err x
      the_user (ok e) names = ok (ldap_user e names)

  -- Client as the SPI's UserRegistry: all but GetUser return errNotSupported
  abbrev pub ldap_registry : UserRegistry LdapState
  ldap_registry = record {
    get_user = get_user;
    insert_user = λ u. raise not_supported_by_ldap;
    update_user = λ u. raise not_supported_by_ldap;
    delete_user = λ id. raise not_supported_by_ldap;
    update_field = λ id field value. raise not_supported_by_ldap;
    get_field = λ id field. raise not_supported_by_ldap;
    get_group = λ name. raise not_supported_by_ldap;
    get_root_group = raise not_supported_by_ldap;
    insert_group = λ name parent. raise not_supported_by_ldap;
    delete_group = λ name. raise not_supported_by_ldap;
  }

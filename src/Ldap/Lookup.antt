-- ===== src/Ldap/Lookup.antt =====
-- GetUser, Login and the affiliation path of cli/server/ldap/client.go.
use mathlib.Core.List.{reverse, reverse-reverse, reverse-append}
use copfvtci.Prelude.{
  ℕ, zero, suc, ◌+◌, ◌-◌, ◌<◌, ◌≡◌, refl, sym, ap, ◌∙◌, inl, inr, Bool, true, false, ◌||◌, none,
  some, List, [], ◌∷◌, ◌++◌, Text, text_eq, text_eq_iff, codes, length, take, arith, Bool-cases,
  Option-cases, if◌then◌else◌, ◌&&◌, not, is_empty,
}
use copfvtci.Strings.SplitJoin.{split, join, join-split}
use copfvtci.Errors.{ok, err, ldap_failure, Result-cases, ok-injective}
use copfvtci.Spi.{User}
use copfvtci.Accessor.{StrMap, map_get}
use copfvtci.Ldap.{
  LdapClient, Entry, SearchRequest, Directory, LdapState, unconnected, the_entry, attrs_of,
  element_at, reversed_from, reverse_slice, new_connection, admin_connect, search_user, login,
  ldap_user, get_user,
}

take-suc :
    (xs : List Text) (n : ℕ) → n < length xs → take (suc n) xs ≡ take n xs ++ element_at xs n ∷ []
unfolding element_at
take-suc [] n h = absurd (omega arith)
take-suc (x ∷ xs) zero h = refl
take-suc (x ∷ xs) (suc n) h = ap (λ t. x ∷ t) (take-suc xs n (omega arith))

take_all : (xs : List Text) → take (length xs) xs ≡ xs
take_all [] = refl
take_all (x ∷ xs) = ap (λ t. x ∷ t) (take_all xs)

reversed_from-take :
    (xs : List Text) (n i : ℕ) → n + i ≡ length xs → reversed_from xs n i ≡ reverse (take n xs)
unfolding reversed_from
reversed_from-take xs zero i h = refl
reversed_from-take xs (suc n) i h =
    let here : length xs - i - 1 ≡ n = omega arith in
    rw (
      here,
      take-suc xs n (omega arith),
      reverse-append (take n xs) (element_at xs n ∷ []),
      reversed_from-take xs n (i + 1) (omega arith),
    )

reversed_whole : (xs : List Text) → reversed_from xs (length xs) 0 ≡ reverse xs
reversed_whole xs = reversed_from-take xs (length xs) 0 (omega arith) ∙ ap reverse (take_all xs)

-- The loop that reverses a slice by its indices is list reversal. So a user's affiliation path is the
-- parts of its distinguished name from the last to the first, and joining them from the last again
-- gives the name back.
pub reverse_slice-reverse :
    (xs : List Text) (dn : Text)
    → (reverse_slice xs ≡ reverse xs) × (join (reverse (reverse_slice (split dn b','))) b',' ≡ dn)
unfolding reverse_slice
reverse_slice-reverse xs dn = (
  reversed_whole xs,
  rw (reversed_whole (split dn b','), reverse-reverse (split dn b',')) (join-split dn b','),
)

-- what the map of a user holds of an attribute
abbrev pub value_of : Entry → Text → Text
value_of e name = if text_eq name (codes "dn") then e.dn else e.attribute_value name

unfoldable pub requested : List Text → Text → Bool
requested [] name = false
requested (n ∷ names) name = text_eq n name || requested names name

map_get-attrs_of :
    (e : Entry) (names : List Text) (m : StrMap) (name : Text)
    → map_get (attrs_of e names m) name
      ≡ (if requested names name then value_of e name else map_get m name)
unfolding attrs_of requested map_get
map_get-attrs_of e [] m name = refl
map_get-attrs_of e (n ∷ names) m name = elim (Bool-cases (text_eq n name)) [
  | inl h ↦
      map_get-attrs_of e names ((n, value_of e n) ∷ m) name
      ∙ elim (Bool-cases (requested names name)) [
        | inl r ↦ rw (h, r)
        | inr r ↦ rw (h, r) (ap (value_of e) ((text_eq_iff n name).0 h))
      ]
  | inr h ↦ map_get-attrs_of e names ((n, value_of e n) ∷ m) name ∙ rw h
]

the_entry-ok : (es : List Entry) (e : Entry) → the_entry es ≡ ok e → es ≡ e ∷ []
unfolding the_entry
the_entry-ok [] e h = absurd (cc)
the_entry-ok (f ∷ []) e h = ap (λ x. x ∷ []) (ok-injective h)
the_entry-ok (f ∷ g ∷ es) e h = absurd (cc)

module _ (dir : Directory) (lc : LdapClient) where
  abbrev pub request_of : Text → List Text → SearchRequest
  request_of username names = record {
    base = lc.base;
    filter = dir.sprintf lc.user_filter username;
    attributes = names;
  }

  pub get_user_found :
      (username : Text) (names : List Text) (s : LdapState) (u : User LdapState)
      → (get_user dir lc username names s).0 ≡ ok u
      → (n conn : ℕ) × (e : Entry) × (dir.search n conn (request_of username names) ≡ some (e ∷ []))
        × (u ≡ ldap_user dir lc e names)
  unfolding get_user search_user
  get_user_found username names s u h = elim (Result-cases (admin_connect dir lc s).0) [
    | inr (x, e) ↦ absurd (ground arith)
    | inl (conn, e) ↦
        let t = (admin_connect dir lc s).1 in
        elim (Option-cases (dir.search t.calls conn (request_of username names))) [
          | inl f ↦ absurd (ground arith)
          | inr (es, f) ↦ elim (Result-cases (the_entry es)) [
            | inr (x, g) ↦ absurd (ground arith)
            | inl (found, g) ↦ (
              t.calls,
              conn,
              found,
              f ∙ ap some (the_entry-ok es found g),
              sym (ok-injective (rw (e, f, g) at h)),
            )
          ]
        ]
  ]

  -- GetUser returns a user only if a search for the formatted filter found exactly one entry. The user
  -- bears the entry's distinguished name, and has, of the attributes that were asked for, the entry's
  -- values ("dn" being its name), and of every other attribute the empty text.
  pub get_user_sound :
      (username : Text) (names : List Text) (s : LdapState) (u : User LdapState)
      → (get_user dir lc username names s).0 ≡ ok u
      → (n conn : ℕ) × (e : Entry) × (dir.search n conn (request_of username names) ≡ some (e ∷ []))
        × (u.get_name ≡ e.dn)
        × ((name : Text)
            → u.get_attribute name ≡ (if requested names name then value_of e name else []))
  unfolding map_get
  get_user_sound username names s u h =
      let (n, conn, e, searched, same) = get_user_found username names s u h in
      (
        n,
        conn,
        e,
        searched,
        ap (λ (v : User LdapState). v.get_name) same,
        λ name.
            ap (λ (v : User LdapState). v.get_attribute name) same
            ∙ map_get-attrs_of e names [] name,
      )

  pub login_sound :
      (dn password : Text) (s : LdapState)
      → (login dir lc dn password s).0 ≡ ok tt
      → (n conn : ℕ) × (dir.bind n conn dn password ≡ true)
  unfolding login
  login_sound dn password s h = elim (Result-cases (new_connection dir lc s).0) [
    | inr (x, e) ↦ absurd (ground arith)
    | inl (conn, e) ↦
        let t = (new_connection dir lc s).1 in
        elim (Bool-cases (dir.bind t.calls conn dn password)) [
          | inl b ↦ (t.calls, conn, b)
          | inr b ↦ absurd (ground arith)
        ]
  ]

  -- several calls of GetUser, in turn
  unfoldable pub lookups : List (Text × List Text) → LdapState → LdapState
  lookups [] s = s
  lookups ((username, names) ∷ rest) s = lookups rest (get_user dir lc username names s).1

  abbrev pub Dead : ℕ → Type 0
  Dead conn = (n : ℕ) (r : SearchRequest) → dir.search n conn r ≡ none

  stays-Dead :
      (username : Text) (names : List Text) (s : LdapState) (conn : ℕ)
      → s.admin_conn ≡ some conn
      → Dead conn
      → ((get_user dir lc username names s).0 ≡ err ldap_failure)
        × ((get_user dir lc username names s).1.admin_conn ≡ some conn)
  unfolding get_user admin_connect search_user
  stays-Dead username names s conn cached dead =
      rw cached (rw (dead s.calls (request_of username names)) (refl, refl))

  -- A cached connection on which no search is answered any more is never replaced: after any further
  -- calls of GetUser it is still the cached one, and every call fails, even if the server would accept
  -- a new connection.
  pub get_user-Dead :
      (earlier : List (Text × List Text)) (username : Text) (names : List Text) (s : LdapState)
      (conn : ℕ)
      → s.admin_conn ≡ some conn
      → Dead conn
      → ((get_user dir lc username names (lookups earlier s)).0 ≡ err ldap_failure)
        × ((lookups earlier s).admin_conn ≡ some conn)
  unfolding lookups
  get_user-Dead [] username names s conn cached dead =
      ((stays-Dead username names s conn cached dead).0, cached)
  get_user-Dead ((name, asked) ∷ rest) username names s conn cached dead =
      get_user-Dead rest username names (get_user dir lc name asked s).1 conn
        (stays-Dead name asked s conn cached dead).1 dead

  new_connection-ok :
      (s : LdapState)
      → dir.dial s.calls lc ≡ true
      → ((n : ℕ) → dir.bind n s.calls lc.admin_dn lc.admin_password ≡ true)
      → (new_connection dir lc s).0 ≡ ok s.calls
  unfolding new_connection
  new_connection-ok s dials binds =
      elim (Bool-cases (not (is_empty lc.admin_dn) && not (is_empty lc.admin_password))) [
        | inl e ↦ rw (dials, e, binds (s.calls + 1))
        | inr e ↦ rw (dials, e)
      ]

  -- Before a connection is cached, a call of GetUser opens one as soon as the server takes the call and
  -- the bind of the administrator, caches it, and returns the user if the search finds exactly one.
  pub get_user_connects :
      (username : Text) (names : List Text) (calls : ℕ)
      → dir.dial calls lc ≡ true
      → ((n : ℕ) → dir.bind n calls lc.admin_dn lc.admin_password ≡ true)
      → ((n : ℕ) → (e : Entry) × (dir.search n calls (request_of username names) ≡ some (e ∷ [])))
      → (u : User LdapState) × ((get_user dir lc username names (unconnected calls)).0 ≡ ok u)
        × ((get_user dir lc username names (unconnected calls)).1.admin_conn ≡ some calls)
  unfolding get_user admin_connect search_user the_entry
  get_user_connects username names calls dials binds finds =
      let t = (new_connection dir lc (unconnected calls)).1 in
      let (e, f) = finds t.calls in
      let opened = new_connection-ok (unconnected calls) dials binds in
      (ldap_user dir lc e names, rw (opened, f), rw (opened, f))

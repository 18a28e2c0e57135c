-- ===== src/Server/Routing.antt =====
-- Which handlers a request reaches through the mux that registerHandlers of cli/server/server.go fills.
use mathlib.Core.List.{Memᴰ, Permᴰ}
use mathlib.Core.Path.{subst}
use copfvtci.Prelude.{
  ◌++◌, ◌≡◌, refl, sym, ap, ◌∙◌, inl, inr, Bool, true, false, ◌&&◌, ◌||◌, ◌==◌, ltb, length, Option,
  none, some, List, [], ◌∷◌, Text, text_eq, text_eq_refl, text_eq_iff, codes, All, Bool-cases,
  Option-cases, arith,
}
use copfvtci.Errors.{Run, finished, finished-injective}
use copfvtci.Auth.{AuthHandler, auth_wrapper, wrapped_path}
use copfvtci.Util.{ends_in}
use copfvtci.Strings.{has_prefix}
use copfvtci.Server.{
  Handler, Setup, endpoints, Mux, entry, register_handlers, path_match, mux_match, routed, reached,
  implied, exact, route,
}
use copfvtci.Server.Endpoints.{Returns}
use copfvtci.Server.Table.{AtEndpoint, Placed}
use copfvtci.Server.Registered.{register_handlers_lem}

reached-injective :
    {a b : AuthHandler} {h k : Handler}
    → reached a h ≡ reached b k
    → ◌≡◌ {A = AuthHandler × Handler} (a, h) (b, k)
reached-injective e = cc

some-injective : {A : Type 0} {a b : A} → some a ≡ some b → a ≡ b
some-injective h = cc

-- two slashes in a row, which path.Clean takes out
unfoldable pub has_double : Text → Bool
has_double [] = false
has_double (c ∷ []) = false
has_double (c ∷ d ∷ s) = ((c == b'/') && (d == b'/')) || has_double (d ∷ s)

abbrev pub CleanLaw : (Text → Text) → Type 0
CleanLaw clean = (path : Text) → has_double (clean path) ≡ false

has_prefix-has_double :
    (s p : Text) → has_prefix s p ≡ true → has_double p ≡ true → has_double s ≡ true
unfolding has_prefix has_double
has_prefix-has_double s [] h d = absurd (cc)
has_prefix-has_double s (a ∷ []) h d = absurd (cc)
has_prefix-has_double [] (a ∷ b ∷ p) h d = absurd (cc)
has_prefix-has_double (x ∷ []) (a ∷ b ∷ p) h d = ground arith
has_prefix-has_double (x ∷ y ∷ s) (a ∷ b ∷ p) h d =
    ground (arith, has_prefix-has_double (y ∷ s) (b ∷ p))

box_double : has_double (wrapped_path (codes "/")) ≡ true
unfolding has_double wrapped_path
box_double = refl

box_slash : ends_in b'/' (wrapped_path (codes "/")) ≡ true
unfolding ends_in wrapped_path
box_slash = refl

-- an entry whose pattern matches a path without two slashes in a row
placed_endpoint :
    (q p : Text) (a : AuthHandler) (h : Handler)
    → Placed (q, (a, h))
    → path_match q p ≡ true
    → has_double p ≡ false
    → AtEndpoint p a h
unfolding path_match
placed_endpoint q p a h (inl (at_box, _)) m single =
    let prefix : has_prefix p q ≡ true = rw (ap (ends_in b'/') at_box ∙ box_slash) at m in
    absurd (cc (sym single ∙ has_prefix-has_double p q prefix (ap has_double at_box ∙ box_double)))
placed_endpoint q p a h (inr (there, no_slash)) m single =
    subst (λ x. AtEndpoint x a h) ((text_eq_iff q p).0 (rw no_slash at m)) there

entry-Placed :
    (mux : Mux) (p : Text) (a : AuthHandler) (h : Handler)
    → All Placed mux
    → entry mux p ≡ some (a, h)
    → Placed (p, (a, h))
unfolding entry
entry-Placed [] p a h placed e = absurd (cc)
entry-Placed ((q, (b, k)) ∷ mux) p a h (x, placed) e = elim (Bool-cases (text_eq q p)) [
  | inl same ↦
      let found : (b, k) ≡ (a, h) = some-injective (rw same at e) in
      subst (λ y. Placed (p, y)) found
        (subst (λ y. Placed (y, (b, k))) ((text_eq_iff q p).0 same) x)
  | inr other ↦ entry-Placed mux p a h placed (rw other at e)
]

has_prefix_refl : (s : Text) → has_prefix s s ≡ true
unfolding has_prefix
has_prefix_refl [] = refl
has_prefix_refl (c ∷ s) = ground (arith, has_prefix_refl s)

path_match_refl : (p : Text) → path_match p p ≡ true
unfolding path_match
path_match_refl p = elim (Bool-cases (ends_in b'/' p)) [
  | inl e ↦ rw e (has_prefix_refl p)
  | inr e ↦ rw e (text_eq_refl p)
]

-- the pattern that is found is one of the mux, and matches
mux_match_sound :
    (mux : Mux) (p : Text) (found : Text × (AuthHandler × Handler))
    → All Placed mux
    → mux_match mux p ≡ some found
    → Placed found × (path_match found.0 p ≡ true)
unfolding mux_match
mux_match_sound [] p found placed h = absurd (cc)
mux_match_sound ((q, k) ∷ mux) p found (x, placed) h = elim (Bool-cases (path_match q p)) [
  | inr misses ↦ mux_match_sound mux p found placed (rw misses at h)
  | inl hits ↦
      let g = rw hits at h in
      elim (Option-cases (mux_match mux p)) [
        | inl nothing ↦ here q k x hits (some-injective (rw nothing at g))
        | inr ((q', k'), later) ↦ elim (Bool-cases (ltb (length q') (length q))) [
          | inl longer ↦ here q k x hits (some-injective (rw (later, longer) at g))
          | inr shorter ↦ mux_match_sound mux p found placed (later ∙ rw (later, shorter) at g)
        ]
      ]
]
  where
    here :
        (q : Text) (k : AuthHandler × Handler)
        → Placed (q, k)
        → path_match q p ≡ true
        → (q, k) ≡ found
        → Placed found × (path_match found.0 p ≡ true)
    here q k x hits same = (subst Placed same x, subst (λ e. path_match e.0 p ≡ true) same hits)

routed_endpoint :
    (mux : Mux) (p : Text) (a : AuthHandler) (h : Handler)
    (o : Option (Text × (AuthHandler × Handler)))
    → All Placed mux
    → has_double p ≡ false
    → mux_match mux p ≡ o
    → routed o ≡ reached a h
    → AtEndpoint p a h
routed_endpoint mux p a h none placed single m e = absurd (cc)
routed_endpoint mux p a h (some (q, (b, k))) placed single m e =
    let (x, hits) = mux_match_sound mux p (q, (b, k)) placed m in
    subst (λ x. AtEndpoint p x.0 x.1) (reached-injective e) (placed_endpoint q p b k x hits single)

exact_endpoint :
    (mux : Mux) (p : Text) (a : AuthHandler) (h : Handler) (o : Option (AuthHandler × Handler))
    → All Placed mux
    → has_double p ≡ false
    → entry mux p ≡ o
    → exact mux p o ≡ reached a h
    → AtEndpoint p a h
exact_endpoint mux p a h (some (b, k)) placed single e r =
    subst (λ x. AtEndpoint p x.0 x.1) (reached-injective r)
      (placed_endpoint p p b k (entry-Placed mux p b k placed e) (path_match_refl p) single)
exact_endpoint mux p a h none placed single e r = implied_endpoint (entry mux (p ++ b'/' ∷ [])) r
  where
    implied_endpoint :
        (o : Option (AuthHandler × Handler))
        → implied o p (routed (mux_match mux p)) ≡ reached a h
        → AtEndpoint p a h
    implied_endpoint none r = routed_endpoint mux p a h (mux_match mux p) placed single refl r
    implied_endpoint (some k) r = absurd (cc)

-- Whatever path a request has, and in whichever order the endpoints were registered: a handler that the
-- mux hands it to is the one that the API has at that path, behind a wrapper that takes the credentials
-- of that endpoint. It is never the handler of the static files.
-- The mux cleans a path of double slashes, and NewTCertHandler does not panic or end the process.
pub route_sound :
    (s : Setup) (order : List (Text × Run Handler)) (clean : Text → Text) (mux : Mux) (p : Text)
    (a : AuthHandler) (h : Handler)
    → Returns s.new_tcert
    → Permᴰ (endpoints s) order
    → CleanLaw clean
    → register_handlers order [] ≡ finished mux
    → route clean mux p ≡ reached a h
    → AtEndpoint p a h
unfolding route
route_sound s order clean mux p a h returns d law made r =
    let (mux', e, _, placed) = register_handlers_lem s order returns d in
    let same : mux' ≡ mux = finished-injective (sym e ∙ made) in
    elim (Bool-cases (text_eq (clean p) p)) [
      | inl is_clean ↦
          let single : has_double p ≡ false =
            ap has_double (sym ((text_eq_iff (clean p) p).0 is_clean)) ∙ law p in
          exact_endpoint mux p a h (entry mux p) (subst (All Placed) same placed) single refl
            (rw is_clean at r)
      | inr dirty ↦ absurd (cc (sym (rw dirty at r)))
    ]

All-Memᴰ : {A : Type 0} (P : A → Type 0) {x : A} {xs : List A} → Memᴰ x xs → All P xs → P x
All-Memᴰ P (Memᴰ.head e) (p, h) = subst P (sym e) p
All-Memᴰ P (Memᴰ.tail m) (p, h) = All-Memᴰ P m h

-- A request for the path of an endpoint whose constructor returned a handler reaches that handler, behind
-- the wrapper that NewAuthWrapper makes for the endpoint, in whichever order the endpoints were
-- registered. The path is a clean one, and NewTCertHandler does not panic or end the process.
pub route_enabled :
    (s : Setup) (order : List (Text × Run Handler)) (clean : Text → Text) (mux : Mux) (path : Text)
    (h : Handler)
    → Returns s.new_tcert
    → Permᴰ (endpoints s) order
    → Memᴰ (path, finished h) (endpoints s)
    → clean (wrapped_path path) ≡ wrapped_path path
    → register_handlers order [] ≡ finished mux
    → route clean mux (wrapped_path path) ≡ reached (auth_wrapper path) h
unfolding route
route_enabled s order clean mux path h returns d m is_clean made =
    let (mux', e, targets, _) = register_handlers_lem s order returns d in
    let same : mux' ≡ mux = finished-injective (sym e ∙ made) in
    let found : entry mux (wrapped_path path) ≡ some (auth_wrapper path, h) =
      ap (λ x. entry x (wrapped_path path)) (sym same) ∙ All-Memᴰ _ m targets in
    rw (is_clean, text_eq_refl (wrapped_path path), found) refl

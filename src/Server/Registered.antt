-- ===== src/Server/Registered.antt =====
-- What registerHandlers of cli/server/server.go leaves in the mux.
use mathlib.Core.List.{Permᴰ}
use mathlib.Core.List.Permᴰ
use copfvtci.Prelude.{
  ◌≡◌, refl, sym, ap, ◌∙◌, false, none, List, [], ◌∷◌, Text, text_eq, text_eq_refl, All,
}
use copfvtci.Prelude.Permuted.{All-Permᴰ, Pairwise, Pairwise-Permᴰ}
use copfvtci.Errors.{Run, finished, errored, crashed, exited, finished-injective}
use copfvtci.Auth.{auth_wrapper, wrapped_path}
use copfvtci.Server.{Handler, Setup, endpoints, Mux, entry, handle, enabled, register_handlers}
use copfvtci.Server.Endpoints.{Apart, Returns, target, endpoints-Apart, endpoints-Returns}
use copfvtci.Server.Table.{Placed, Good, endpoints-Good}

-- the mux after an endpoint whose pattern is new
after : Text → Run Handler → Mux → Mux
after path (finished h) mux = (wrapped_path path, (auth_wrapper path, h)) ∷ mux
after path _ mux = mux

enabled_lem :
    (path : Text) (r : Run Handler) (mux : Mux)
    → Returns r
    → entry mux (wrapped_path path) ≡ none
    → enabled path r mux ≡ finished (after path r mux)
unfolding after
enabled_lem path (finished h) mux returns free = rw (handle, free) refl
enabled_lem path (errored e) mux returns free = refl
enabled_lem path crashed mux returns free = absurd returns
enabled_lem path exited mux returns free = absurd returns

entry-after :
    (path : Text) (r : Run Handler) (mux : Mux)
    → entry mux (wrapped_path path) ≡ none
    → entry (after path r mux) (wrapped_path path) ≡ target path r
unfolding after entry
entry-after path (finished h) mux free = rw (text_eq_refl (wrapped_path path)) refl
entry-after path (errored e) mux free = free
entry-after path crashed mux free = free
entry-after path exited mux free = free

entry_other :
    (path pattern : Text) (r : Run Handler) (mux : Mux)
    → text_eq (wrapped_path path) pattern ≡ false
    → entry (after path r mux) pattern ≡ entry mux pattern
unfolding after entry
entry_other path pattern (finished h) mux apart = rw apart refl
entry_other path pattern (errored e) mux apart = refl
entry_other path pattern crashed mux apart = refl
entry_other path pattern exited mux apart = refl

after-Placed :
    (path : Text) (r : Run Handler) (mux : Mux)
    → Good (path, r)
    → All Placed mux
    → All Placed (after path r mux)
unfolding after
after-Placed path (finished h) mux good placed = (good h refl, placed)
after-Placed path (errored e) mux good placed = placed
after-Placed path crashed mux good placed = placed
after-Placed path exited mux good placed = placed

still_free :
    (path : Text) (r : Run Handler) (mux : Mux) (es : List (Text × Run Handler))
    → All (Apart (path, r)) es
    → All (λ e. entry mux (wrapped_path e.0) ≡ none) es
    → All (λ e. entry (after path r mux) (wrapped_path e.0) ≡ none) es
still_free path r mux [] apart free = tt
still_free path r mux (e ∷ es) ((a, b), apart) (f, free) =
    (entry_other path (wrapped_path e.0) r mux a ∙ f, still_free path r mux es apart free)

-- the patterns of a mux before the loop, which none of the endpoints has
kept_pattern :
    (es : List (Text × Run Handler)) (mux mux' : Mux) (pattern : Text)
    → All (λ e. Returns e.1) es
    → Pairwise Apart es
    → All (λ e. entry mux (wrapped_path e.0) ≡ none) es
    → All (λ e. text_eq (wrapped_path e.0) pattern ≡ false) es
    → register_handlers es mux ≡ finished mux'
    → entry mux' pattern ≡ entry mux pattern
unfolding register_handlers
kept_pattern [] mux mux' pattern returns apart free other h =
    ap (λ m. entry m pattern) (sym (finished-injective h))
kept_pattern ((path, r) ∷ es) mux mux' pattern (x, returns) (a, apart) (f, free) (o, other) h =
    kept_pattern es (after path r mux) mux' pattern returns apart (still_free path r mux es a free)
      other (rw (enabled_lem path r mux x f) at h)
    ∙ entry_other path pattern r mux o

registered :
    (es : List (Text × Run Handler)) (mux : Mux)
    → All (λ e. Returns e.1) es
    → Pairwise Apart es
    → All (λ e. entry mux (wrapped_path e.0) ≡ none) es
    → All Good es
    → All Placed mux
    → (mux' : Mux) × (register_handlers es mux ≡ finished mux')
      × All (λ e. entry mux' (wrapped_path e.0) ≡ target e.0 e.1) es
      × All Placed mux'
unfolding register_handlers
registered [] mux returns apart free good placed = (mux, refl, tt, placed)
registered ((path, r) ∷ es) mux (x, returns) (a, apart) (f, free) (g, good) placed =
    let next = after path r mux in
    let free' = still_free path r mux es a free in
    let (mux', e, targets, placed') =
      registered es next returns apart free' good (after-Placed path r mux g placed) in
    (
      mux',
      rw (enabled_lem path r mux x f) e,
      (
        kept_pattern es next mux' (wrapped_path path) returns apart free' (others path r es a) e
            ∙ entry-after path r mux f,
        targets,
      ),
      placed',
    )
  where
    others :
        (path : Text) (r : Run Handler) (es : List (Text × Run Handler))
        → All (Apart (path, r)) es
        → All (λ e. text_eq (wrapped_path e.0) (wrapped_path path) ≡ false) es
    others path r [] h = tt
    others path r (e ∷ es) ((a, b), h) = (b, others path r es h)

none_there : (es : List (Text × Run Handler)) → All (λ e. entry [] (wrapped_path e.0) ≡ none) es
unfolding entry
none_there [] = tt
none_there (e ∷ es) = (refl, none_there es)

-- In whichever order Go takes the map of endpoints, registerHandlers ends, if the constructor of the TCert
-- handler does not panic or end the process. In the mux, each endpoint's handler stands under
-- its pattern behind the wrapper for its path, and nothing stands there if the constructor
-- failed. Nothing else is in the mux, and only the pattern of "/" ends in a slash.
pub register_handlers_lem :
    (s : Setup) (order : List (Text × Run Handler))
    → Returns s.new_tcert
    → Permᴰ (endpoints s) order
    → (mux : Mux) × (register_handlers order [] ≡ finished mux)
      × All (λ e. entry mux (wrapped_path e.0) ≡ target e.0 e.1) (endpoints s)
      × All Placed mux
register_handlers_lem s order returns d =
    let (mux, e, targets, placed) =
      registered order [] (All-Permᴰ _ d (endpoints-Returns s returns))
        (Pairwise-Permᴰ Apart (λ x y (a, b). (b, a)) d (endpoints-Apart s)) (none_there order)
        (All-Permᴰ Good d (endpoints-Good s)) tt in
    (mux, e, All-Permᴰ _ (Permᴰ.symm d) targets, placed)

-- ===== src/KeyTree/Collision.antt =====
-- The cache of lib/tcert/keytree.go goes by the joined path, so names with a '/' can share an entry.
use mathlib.Core.List.{reverse, reverse-reverse}
use copfvtci.Prelude.{
  ◌≡◌, ◌≢◌, refl, sym, ap, ◌∙◌, inl, inr, Option, some, List, [], ◌∷◌, Text, text_eq_refl, arith,
  Option-cases,
}
use copfvtci.Strings.SplitJoin.{join}
use copfvtci.Errors.{Result, ok, err, ok-injective}
use copfvtci.KeyTree.{KeyTree, cached, derive_child_key, get_key_from, get_key}

-- a path that is not empty, from its last name
last_name :
    (p : List Text)
    → p ≢ []
    → (child : Text) × (parents : List Text) × (reverse p ≡ child ∷ parents)
last_name p h = go (reverse p) refl
  where
    go :
        (r : List Text)
        → reverse p ≡ r
        → (child : Text) × (parents : List Text) × (reverse p ≡ child ∷ parents)
    go [] e = absurd (h (sym (reverse-reverse p) ∙ ap reverse e))
    go (c ∷ ps) e = (c, ps, e)

module _ {K : Type 0} (derive : K → Text → Option K) where
  child_cached :
      (r : Result K) (child path : Text) (t : KeyTree K) (k : K)
      → (derive_child_key derive r child path t).0 ≡ ok k
      → cached path (derive_child_key derive r child path t).1.keys ≡ some k
  unfolding derive_child_key cached
  child_cached (err e) child path t k h = absurd (cc)
  child_cached (ok parent) child path t k h = elim (Option-cases (derive parent child)) [
    | inl e ↦ absurd (ground arith)
    | inr (k', e) ↦ ground (arith, text_eq_refl path)
  ]

  get_key_from-cached :
      (child : Text) (parents : List Text) (t : KeyTree K) (k : K)
      → (get_key_from derive (child ∷ parents) t).0 ≡ ok k
      → cached
          (join (reverse (child ∷ parents)) b'/')
          (get_key_from derive (child ∷ parents) t).1.keys
        ≡ some k
  unfolding get_key_from
  get_key_from-cached child parents t k h =
      elim (Option-cases (cached (join (reverse (child ∷ parents)) b'/') t.keys)) [
        | inl miss ↦
            rw (miss, get_key_from)
              (child_cached (get_key_from derive parents t).0 child
                (join (reverse (child ∷ parents)) b'/') (get_key_from derive parents t).1 k
                (rw (miss, get_key_from) at h))
        | inr (k', hit) ↦
            rw (hit, get_key_from) (hit ∙ ap some (ok-injective (rw (hit, get_key_from) at h)))
      ]

  get_key_from-hit :
      (child : Text) (parents : List Text) (t : KeyTree K) (k : K)
      → cached (join (reverse (child ∷ parents)) b'/') t.keys ≡ some k
      → (get_key_from derive (child ∷ parents) t).0 ≡ ok k
  unfolding get_key_from
  get_key_from-hit child parents t k hit = rw (hit, get_key_from)

  -- Two paths with at least one name each that join to one text share their key: once the first has
  -- been answered, the second is answered by the first one's key, whatever its own derivation gives.
  pub get_key_collision :
      (p q : List Text) (t : KeyTree K) (k : K)
      → p ≢ []
      → q ≢ []
      → join p b'/' ≡ join q b'/'
      → (get_key derive p t).0 ≡ ok k
      → (get_key derive q (get_key derive p t).1).0 ≡ ok k
  unfolding get_key
  get_key_collision p q t k hp hq same h =
      let (c, ps, e) = last_name p hp in
      let (d, qs, f) = last_name q hq in
      rw (e, f)
        (get_key_from-hit d qs (get_key_from derive (c ∷ ps) t).1 k (
          rw (← f, reverse-reverse q, ← same, ← reverse-reverse p, e)
            (get_key_from-cached c ps t k (rw e at h))))

-- ===== src/KeyTree/Cache.antt =====
-- The cache of lib/tcert/keytree.go against plain derivation from the root.
use mathlib.Core.List.{reverse, reverse-reverse, reverse-append}
use copfvtci.Prelude.{
  ◌≡◌, ◌≢◌, refl, sym, ap, ◌∙◌, inl, inr, Option, none, some, List, [], ◌∷◌, map, Text, text_eq,
  text_eq_iff, All, All-append, Option-cases, Bool-cases,
}
use copfvtci.Strings.SplitJoin.{split, join, Lacks, split-join, split-All-Lacks}
use copfvtci.Errors.{Result, ok, err, library_error}
use copfvtci.KeyTree.{
  KeyTree, new_key_tree, cached, derive_child_key, get_key_from, get_key, get_keys,
}

abbrev pub Plain : List Text → Type 0
Plain = All (Lacks b'/')

reverse-Plain : (ps : List Text) → Plain ps → Plain (reverse ps)
reverse-Plain [] h = tt
reverse-Plain (p ∷ ps) (hp, hps) =
    rw (reverse-append (p ∷ []) ps)
      (All-append (Lacks b'/') (reverse ps) (p ∷ []) (reverse-Plain ps hps) (hp, tt))

reverse-ne-nil : (p : Text) (ps : List Text) → reverse (p ∷ ps) ≢ []
reverse-ne-nil p ps e = absurd (cc (sym (reverse-reverse (p ∷ ps)) ∙ ap reverse e))

-- paths of plain names are told apart by their joined text
join-injective :
    (ps qs : List Text)
    → ps ≢ []
    → qs ≢ []
    → Plain ps
    → Plain qs
    → join ps b'/' ≡ join qs b'/'
    → ps ≡ qs
join-injective [] qs hp hq a b e = absurd (hp refl)
join-injective (p ∷ ps) [] hp hq a b e = absurd (hq refl)
join-injective (p ∷ ps) (q ∷ qs) hp hq a b e =
    sym (split-join p ps b'/' a) ∙ ap (λ t. split t b'/') e ∙ split-join q qs b'/' b

same_path :
    (c d : Text) (ps qs : List Text)
    → Plain (c ∷ ps)
    → Plain (d ∷ qs)
    → join (reverse (c ∷ ps)) b'/' ≡ join (reverse (d ∷ qs)) b'/'
    → c ∷ ps ≡ d ∷ qs
same_path c d ps qs hp hq e =
    sym (reverse-reverse (c ∷ ps))
    ∙ ap reverse (
        join-injective (reverse (c ∷ ps)) (reverse (d ∷ qs)) (reverse-ne-nil c ps)
          (reverse-ne-nil d qs) (reverse-Plain (c ∷ ps) hp) (reverse-Plain (d ∷ qs) hq) e)
    ∙ reverse-reverse (d ∷ qs)

module _ {K : Type 0} (derive : K → Text → Option K) (root : K) where
  -- The specification: derive a key for each name, from the root. The path stands reversed.
  abbrev pub then_derive : Text → Option K → Option K
  then_derive child none = none
  then_derive child (some k) = derive k child

  unfoldable pub derived : List Text → Option K
  derived [] = some root
  derived (child ∷ parents) = then_derive child (derived parents)

  abbrev pub as_result : Option K → Result K
  as_result none = err library_error
  as_result (some k) = ok k

  -- what an entry of the cache says is right
  abbrev Right : Text × K → Type 0
  Right e =
      (child : Text) × (parents : List Text) × Plain (child ∷ parents)
      × (e.0 ≡ join (reverse (child ∷ parents)) b'/')
      × (derived (child ∷ parents) ≡ some e.1)

  pub record IsValid (t : KeyTree K) : Type 0 where
    pub rooted : t.root_key ≡ root
    pub right : All Right t.keys

  pub new_key_tree-IsValid : IsValid (new_key_tree root)
  new_key_tree-IsValid = record { rooted = refl; right = tt }

  cached-derived :
      (child : Text) (parents : List Text) (keys : List (Text × K)) (k : K)
      → Plain (child ∷ parents)
      → All Right keys
      → cached (join (reverse (child ∷ parents)) b'/') keys ≡ some k
      → derived (child ∷ parents) ≡ some k
  unfolding cached
  cached-derived child parents [] k h v e = absurd (cc)
  cached-derived child parents ((p, k') ∷ keys) k h ((c, ps, plain, name, right), v) e =
      elim (Bool-cases (text_eq p (join (reverse (child ∷ parents)) b'/'))) [
        | inr other ↦ cached-derived child parents keys k h v (rw other at e)
        | inl same ↦
            ap derived (
              same_path child c parents ps h plain
                (sym ((text_eq_iff p (join (reverse (child ∷ parents)) b'/')).0 same) ∙ name))
            ∙ right
            ∙ rw same at e
      ]

  derive_child_key-derived :
      (child : Text) (parents : List Text) (t : KeyTree K)
      → Plain (child ∷ parents)
      → IsValid t
      → ((derive_child_key derive
            (as_result (derived parents))
            child
            (join (reverse (child ∷ parents)) b'/')
            t).0
          ≡ as_result (derived (child ∷ parents)))
        × IsValid
            (derive_child_key derive
              (as_result (derived parents))
              child
              (join (reverse (child ∷ parents)) b'/')
              t).1
  unfolding derived derive_child_key
  derive_child_key-derived child parents t h v = elim (Option-cases (derived parents)) [
    | inl e ↦ rw e (refl, v)
    | inr (k, e) ↦ elim (Option-cases (derive k child)) [
      | inl f ↦ rw (e, f) (refl, v)
      | inr (k', f) ↦
          rw (e, f)
            (
              refl,
              record { rooted = v.rooted; right = ((child, parents, h, refl, rw (e, f)), v.right) },
            )
    ]
  ]

  get_key_from-derived :
      (path : List Text) (t : KeyTree K)
      → Plain path
      → IsValid t
      → ((get_key_from derive path t).0 ≡ as_result (derived path))
        × IsValid (get_key_from derive path t).1
  unfolding get_key_from
  get_key_from-derived [] t h v = (unfold derived in ap ok v.rooted, v)
  get_key_from-derived (child ∷ parents) t (hc, hp) v =
      elim (Option-cases (cached (join (reverse (child ∷ parents)) b'/') t.keys)) [
        | inl miss ↦
            let (result, valid) = get_key_from-derived parents t hp v in
            rw (miss, get_key_from)
              (rw result (
                derive_child_key-derived child parents (get_key_from derive parents t).1 (hc, hp)
                  valid))
        | inr (k, hit) ↦
            rw (hit, get_key_from)
              (rw (cached-derived child parents t.keys k (hc, hp) v.right hit) refl, v)
      ]

  -- On a tree whose cache is right, GetKey of a path whose names hold no '/' returns the key that is
  -- derived from the root, name by name, and fails exactly if a derivation fails. The cache stays
  -- right.
  pub get_key_lem :
      (path : List Text) (t : KeyTree K)
      → Plain path
      → IsValid t
      → ((get_key derive path t).0 ≡ as_result (derived (reverse path)))
        × IsValid (get_key derive path t).1
  unfolding get_key
  get_key_lem path t h v = get_key_from-derived (reverse path) t (reverse-Plain path h) v

  get_keys-derived :
      (paths : List (List Text)) (t : KeyTree K)
      → All Plain paths
      → IsValid t
      → (get_keys derive paths t).0 ≡ map (λ p. as_result (derived (reverse p))) paths
  unfolding get_keys
  get_keys-derived [] t h v = refl
  get_keys-derived (p ∷ ps) t (hp, hps) v =
      let (result, valid) = get_key_lem p t hp v in
      rw (result, get_keys-derived ps (get_key derive p t).1 hps valid)

  -- Any sequence of calls of GetKey that starts on a new tree answers each path by the key that is
  -- derived from the root, whatever the calls before it have put into the cache, if the names in the
  -- paths hold no '/'.
  pub get_keys_lem :
      (paths : List (List Text))
      → All Plain paths
      → (get_keys derive paths (new_key_tree root)).0
        ≡ map (λ p. as_result (derived (reverse p))) paths
  get_keys_lem paths h = get_keys-derived paths (new_key_tree root) h new_key_tree-IsValid

  groups-Plain : (groups : List Text) → All Plain (map (λ g. split g b'/') groups)
  groups-Plain [] = tt
  groups-Plain (g ∷ groups) = (split-All-Lacks g b'/', groups-Plain groups)

  -- The affiliation paths of users in the database, split from their group at '/', are such paths: the
  -- keys of any list of groups, asked for one after the other, are those derived from the root.
  pub get_keys-groups :
      (groups : List Text)
      → (get_keys derive (map (λ g. split g b'/') groups) (new_key_tree root)).0
        ≡ map (λ p. as_result (derived (reverse p))) (map (λ g. split g b'/') groups)
  get_keys-groups groups = get_keys_lem (map (λ g. split g b'/') groups) (groups-Plain groups)

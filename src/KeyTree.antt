-- ===== src/KeyTree.antt =====
-- lib/tcert/keytree.go: the tree of derived keys and its cache. The keys and the derivation of a child's
-- key (KeyDeriv of BCCSP, an HMAC of the child's name) are parameters.
pub mod Cache
pub mod Collision
use mathlib.Core.List.{reverse}
use copfvtci.Prelude.{ℕ, Option, none, some, List, [], ◌∷◌, Text, text_eq, if◌then◌else◌}
use copfvtci.Strings.SplitJoin.{join}
use copfvtci.Errors.{Result, ok, err, library_error}

module _ {K : Type 0} where
  -- m.keys[path]; a nil key is an absent one
  unfoldable pub cached : Text → List (Text × K) → Option K
  cached path [] = none
  cached path ((p, k) ∷ keys) = if text_eq p path then some k else cached path keys

pub record KeyTree (K : Type 0) : Type 0 where
  pub root_key : K
  pub keys : List (Text × K)

-- NewKeyTree
abbrev pub new_key_tree : {K : Type 0} → K → KeyTree K
new_key_tree root = record { root_key = root; keys = [] }

module _ {K : Type 0} (derive : K → Text → Option K) where
  abbrev store : Text → Option K → KeyTree K → Result K × KeyTree K
  store path none t = (err library_error, t)
  store path (some k) t = (ok k, record t { keys = (path, k) ∷ t.keys })

  -- deriveChildKey, and the write to the cache behind it
  unfoldable pub derive_child_key : Result K → Text → Text → KeyTree K → Result K × KeyTree K
  derive_child_key (err e) child path t = (err e, t)
  derive_child_key (ok parent) child path t = store path (derive parent child) t

  -- GetKey. The source takes the last element off the path at each call; here the path stands
  -- reversed, the last element first.
  unfoldable pub get_key_from : List Text → KeyTree K → Result K × KeyTree K
  get_key_from [] t = (ok t.root_key, t)
  get_key_from (child ∷ parents) t =
      let path = join (reverse (child ∷ parents)) b'/' in
      elim (cached path t.keys) [
        | some k ↦ (ok k, t)
        | none ↦ let (parent, t') = get_key_from parents t in derive_child_key parent child path t'
      ]

  unfoldable pub get_key : List Text → KeyTree K → Result K × KeyTree K
  get_key path t = get_key_from (reverse path) t

  -- several calls on one tree, in turn
  unfoldable pub get_keys : List (List Text) → KeyTree K → List (Result K) × KeyTree K
  get_keys [] t = ([], t)
  get_keys (p ∷ ps) t =
      let (r, mid) = get_key p t in let (rs, last) = get_keys ps mid in (r ∷ rs, last)

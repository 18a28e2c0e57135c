-- ===== src/Tests/Keys.antt =====
-- Keys: theorems of KeyTree at concrete inputs; a key is a text, and a child's key the parent's with the
-- child's name behind it.
use copfvtci.Prelude.{◌≡◌, Option, some, List, [], ◌∷◌, ◌++◌, map, Text, codes, arith}
use copfvtci.Strings.SplitJoin.{Lacks}
use copfvtci.KeyTree.{new_key_tree, get_keys}
use copfvtci.KeyTree.Cache.{derived, as_result, get_keys_lem}
use mathlib.Core.List.{reverse}

abbrev child_key : Text → Text → Option Text
child_key k name = some (k ++ b'.' ∷ name)

abbrev paths : List (List Text)
paths = (codes "a" ∷ codes "b" ∷ []) ∷ (codes "a" ∷ []) ∷ (codes "a" ∷ codes "b" ∷ []) ∷ []

a_plain : Lacks b'/' (codes "a")
a_plain = (omega arith, tt)

b_plain : Lacks b'/' (codes "b")
b_plain = (omega arith, tt)

get_keys_lem_example :
    (get_keys child_key paths (new_key_tree (codes "r"))).0
    ≡ map (λ p. as_result child_key (codes "r") (derived child_key (codes "r") (reverse p))) paths
get_keys_lem_example =
    get_keys_lem child_key (codes "r") paths
      ((a_plain, (b_plain, tt)), ((a_plain, tt), ((a_plain, (b_plain, tt)), tt)))

-- ===== src/Util/Json/Laws.antt =====
-- Writing several paths of a JSON text, in any order, and reading them again (util/jsonprocessor.go).
use mathlib.Core.List.Permᴰ
use mathlib.Core.List.{Permᴰ}
use copfvtci.Prelude.{
  ◌≡◌, refl, ◌<◌, Bool, true, false, ◌||◌, some, [], ◌∷◌, Text, text_eq, codes, All,
}
use copfvtci.Prelude.Permuted.{All-Permᴰ, Pairwise, Pairwise-Permᴰ}
use copfvtci.Errors.{finished}
use copfvtci.Accessor.{StrMap}
use copfvtci.Util.Json.{string, Objects, read_json_as_map_string, set_all, write_json_to_string}

-- the paths that the signing functions write
abbrev is_signature_path : Text → Bool
is_signature_path p =
    text_eq p (codes "RSASignature")
    || text_eq p (codes "ECSignature.R")
    || text_eq p (codes "ECSignature.S")
    || text_eq p (codes "Certificate")

-- two of them, not the same
abbrev pub Apart : Text → Text → Type 0
Apart p q =
    (is_signature_path p ≡ true)
    × (is_signature_path q ≡ true)
    × (text_eq p q ≡ false)
    × (text_eq q p ≡ false)

-- bytes that a JSON text gives back as they are
abbrev pub Ascii : Text → Type 0
Ascii = All (λ b. b < 128)

-- What Map and encoding/json keep. `Holds m p v` says that Set made the path `p` lead to the text `v`.
pub record ObjectsLaws {F Map : Type 0} (lib : Objects F Map) : Type 1 where
  pub Holds : Map → Text → Text → Type 0
  pub get-Holds : (m : Map) (p v : Text) → Holds m p v → lib.get m p ≡ string v
  pub set-Holds : (m : Map) (p v : Text) → Holds (lib.set p v m) p v
  pub set_other : (m : Map) (p q v w : Text) → Apart p q → Holds m q w → Holds (lib.set p v m) q w
  pub json-Holds :
      (m : Map) (p v : Text)
      → Ascii v
      → Holds m p v
      → (m' : Map) × (lib.new_map_from_json (lib.json m) ≡ some m') × Holds m' p v

-- every two entries have different paths
abbrev pub AllApart : StrMap → Type 0
AllApart = Pairwise (λ e f. Apart e.0 f.0)

AllApart-Permᴰ : {xs ys : StrMap} → Permᴰ xs ys → AllApart xs → AllApart ys
AllApart-Permᴰ = Pairwise-Permᴰ (λ e f. Apart e.0 f.0) (λ e f (a, b, c, d). (b, a, d, c))

module _ {F Map : Type 0} (lib : Objects F Map) (laws : ObjectsLaws lib) where
  open laws use {Holds, get-Holds, set-Holds, set_other, json-Holds}

  abbrev with_all : StrMap → Map → Map
  with_all [] m = m
  with_all ((p, v) ∷ values) m = with_all values (lib.set p v m)

  set_all_lem :
      (values : StrMap) (m : Map)
      → set_all lib values (some m) ≡ finished (some (with_all values m))
  unfolding set_all
  set_all_lem [] m = refl
  set_all_lem ((p, v) ∷ values) m = set_all_lem values (lib.set p v m)

  with_all_keeps :
      (values : StrMap) (m : Map) (q w : Text)
      → All (λ e. Apart q e.0) values
      → Holds m q w
      → Holds (with_all values m) q w
  with_all_keeps [] m q w apart h = h
  with_all_keeps ((p, v) ∷ values) m q w ((a, b, c, d), apart) h =
      with_all_keeps values (lib.set p v m) q w apart (set_other m p q v w (b, a, d, c) h)

  with_all-Holds :
      (values : StrMap) (m : Map)
      → AllApart values
      → All (λ e. Holds (with_all values m) e.0 e.1) values
  with_all-Holds [] m h = tt
  with_all-Holds ((p, v) ∷ values) m (apart, h) = (
    with_all_keeps values (lib.set p v m) p v apart (set-Holds m p v),
    with_all-Holds values (lib.set p v m) h,
  )

  -- what a reader then finds under a path
  read_again :
      (m : Map) (p v : Text)
      → Ascii v
      → Holds m p v
      → read_json_as_map_string lib (lib.json m) p ≡ finished v
  unfolding read_json_as_map_string
  read_again m p v ascii h =
      let (m', e, held) = json-Holds m p v ascii h in rw (e, get-Holds m' p v held) refl

  all_read_again :
      (m : Map) (values : StrMap)
      → All (λ e. Ascii e.1) values
      → All (λ e. Holds m e.0 e.1) values
      → All (λ e. read_json_as_map_string lib (lib.json m) e.0 ≡ finished e.1) values
  all_read_again m [] ascii h = tt
  all_read_again m ((p, v) ∷ values) (a, ascii) (h, hs) =
      (read_again m p v a h, all_read_again m values ascii hs)

  -- WriteJSONToString writes each of the values, in whichever order the range over the map of values
  -- takes them, so that ReadJSONAsMapString reads it from the JSON text that it returns. The text that it
  -- writes them into is a JSON object, the paths are different ones of those for signatures and the
  -- values are ASCII.
  pub read_json_as_map_string-write_json_to_string :
      (text : Text) (m : Map) (values order : StrMap)
      → lib.new_map_from_json text ≡ some m
      → AllApart values
      → All (λ e. Ascii e.1) values
      → Permᴰ values order
      → (out : Text) × (write_json_to_string lib text order ≡ finished out)
        × All (λ e. read_json_as_map_string lib out e.0 ≡ finished e.1) values
  unfolding write_json_to_string
  read_json_as_map_string-write_json_to_string text m values order e apart ascii d =
      let m' = with_all order m in
      (
        lib.json m',
        rw (e, set_all_lem order m) refl,
        All-Permᴰ _ (Permᴰ.symm d) (
            all_read_again m' order (All-Permᴰ _ d ascii)
              (with_all-Holds order m (AllApart-Permᴰ d apart))),
      )

-- ===== src/Util/Json.antt =====
-- util/jsonprocessor.go: values in a JSON text by their key path. The maps of stretchr/stew and the
-- conversions of a float64 are parameters. A failed type assertion panics, and log.Fatal ends the process.
pub mod Laws
pub mod Attributes
use copfvtci.Prelude.{
  ℕ, ◌+◌, ◌++◌, Bool, true, false, Option, none, some, List, [], ◌∷◌, Text, text_eq, codes,
  is_empty, if◌then◌else◌,
}
use copfvtci.Prelude.Int.{ℤ}
use copfvtci.Errors.{Run, finished, crashed, exited, then_run}
use copfvtci.Accessor.{StrMap}

-- what encoding/json makes of a JSON text as an interface{}
mutual
  pub data Interface (F : Type 0) : Type 0 where
    nil : Interface F
    bool : Bool → Interface F
    float64 : F → Interface F
    string : Text → Interface F
    slice : Items F → Interface F
    object : Fields F → Interface F

  pub data Items (F : Type 0) : Type 0 where
    no_items : Items F
    item : Interface F → Items F → Items F

  pub data Fields (F : Type 0) : Type 0 where
    no_fields : Fields F
    field : Text → Interface F → Fields F → Fields F

pub record Objects (F Map : Type 0) : Type 0 where
  -- objects.NewMapFromJSON, `none` for the nil map that it returns on a failure and for "null"
  pub new_map_from_json : Text → Option Map
  pub get : Map → Text → Interface F
  -- Map.Set of a string
  pub set : Text → Text → Map → Map
  pub json : Map → Text

-- a file system that answers: the content of each file, `none` if there is none, and the files that
-- cannot be written
pub record Files : Type 0 where
  pub refuses : Text → Bool
  pub content : Text → Option Text

abbrev pub written : Text → Text → Files → Files
written path buf d = record d { content = λ f. if text_eq f path then some buf else d.content f }

abbrev pub or_exit {ℓ} : {A : Type ℓ} → Option A → Run A
or_exit none = exited
or_exit (some a) = finished a

module _ {F : Type 0} where
  abbrev pub as_string : Interface F → Run Text
  as_string (string s) = finished s
  as_string _ = crashed

  abbrev pub as_bool : Interface F → Run Bool
  as_bool (bool b) = finished b
  as_bool _ = crashed

  abbrev pub as_float64 : Interface F → Run F
  as_float64 (float64 f) = finished f
  as_float64 _ = crashed

  abbrev pub as_slice : Interface F → Run (Items F)
  as_slice (slice xs) = finished xs
  as_slice _ = crashed

  abbrev pub as_object : Interface F → Run (Fields F)
  as_object (object m) = finished m
  as_object _ = crashed

  -- m[key], nil if there is none
  unfoldable pub at_key : Fields F → Text → Interface F
  at_key no_fields key = nil
  at_key (field k v m) key = if text_eq k key then v else at_key m key

  -- the loop of GetAttributes
  unfoldable pub attributes_from : Items F → StrMap → Run StrMap
  attributes_from no_items m = finished m
  attributes_from (item v rest) m = then_run (as_object v) λ attribute.
      then_run (as_string (at_key attribute (codes "AttributeName"))) λ name.
        then_run (as_string (at_key attribute (codes "AttributeValue")))
          λ value. attributes_from rest ((name, value) ∷ m)

  module _ {Map : Type 0} (lib : Objects F Map) where
    -- Get on a nil map is nil
    abbrev pub get_from : Option Map → Text → Interface F
    get_from none path = nil
    get_from (some m) path = lib.get m path

    -- Set on a nil map panics
    abbrev pub set_in : Option Map → Text → Text → Run Map
    set_in none path value = crashed
    set_in (some m) path value = finished (lib.set path value m)

    unfoldable pub read_json_as_map_string : Text → Text → Run Text
    read_json_as_map_string text path = as_string (get_from (lib.new_map_from_json text) path)

    unfoldable pub read_json_as_map_file : Text → Text → Files → Run Text
    read_json_as_map_file file path d =
        then_run (or_exit (d.content file)) λ buf. read_json_as_map_string buf path

    -- GetAttributes; `none` is the nil map
    unfoldable pub get_attributes : Text → Run (Option StrMap)
    get_attributes text =
        if is_empty text
        then finished none
        else (then_run
            (as_slice
              (get_from (lib.new_map_from_json text) (codes "TCertBatchRequest.AttributeSet")))
            λ attributes. then_run (attributes_from attributes []) λ m. finished (some m))

    unfoldable pub is_attribute_encryption_enabled : Text → Run Bool
    is_attribute_encryption_enabled text = as_bool (
        get_from (lib.new_map_from_json text)
          (codes "TCertBatchRequest.attribute-encryption_enabled"))

    unfoldable pub convert_json_file_to_json_string : Text → Files → Run Text
    convert_json_file_to_json_string file d = or_exit (d.content file)

    unfoldable pub write_json_as_map_to_string : Text → Text → Text → Run Text
    write_json_as_map_to_string text path value =
        then_run (set_in (lib.new_map_from_json text) path value) λ m. finished (lib.json m)

    unfoldable pub write_json_as_map_to_file : Text → Text → Text → Files → Run Files
    write_json_as_map_to_file path value file d = then_run (or_exit (d.content file)) λ buf.
        then_run (write_json_as_map_to_string buf path value)
          λ text. if d.refuses file then exited else finished (written file text d)

    -- the range over the map of values, in the order in which Go takes it
    unfoldable pub set_all : StrMap → Option Map → Run (Option Map)
    set_all [] m = finished m
    set_all ((path, value) ∷ values) m =
        then_run (set_in m path value) λ m'. set_all values (some m')

    -- Map.JSON; a nil map is null
    abbrev pub json_of : Option Map → Text
    json_of none = codes "null"
    json_of (some m) = lib.json m

    unfoldable pub write_json_to_string : Text → StrMap → Run Text
    write_json_to_string text values =
        then_run (set_all values (lib.new_map_from_json text)) λ m. finished (json_of m)

abbrev appended : Option Text → Text → Text
appended none line = line
appended (some buf) line = buf ++ line

-- WriteToJSON: the file is created if os.Stat does not find it, and the line is appended
unfoldable pub write_to_json : Text → Text → Files → Run Files
write_to_json file line d =
    if d.refuses file
    then exited
    else finished (written file (appended (d.content file) (line ++ 10 ∷ [])) d)

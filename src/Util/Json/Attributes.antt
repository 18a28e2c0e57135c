-- ===== src/Util/Json/Attributes.antt =====
-- GetAttributes of util/jsonprocessor.go: which attribute sets it reads, and what it makes of them.
use mathlib.Core.Path.{subst}
use copfvtci.Prelude.{
  ◌≡◌, refl, sym, ap, false, some, [], ◌∷◌, Text, text_eq, codes, is_empty, if◌then◌else◌,
}
use copfvtci.Errors.{finished, then_run-finished, finished-injective}
use copfvtci.Accessor.{StrMap, map_get}
use copfvtci.Util.Json.{
  Interface, nil, bool, float64, string, slice, object, Items, no_items, item, Fields, Objects,
  as_string, as_slice, as_object, at_key, attributes_from, get_from, get_attributes,
}

some-injective : {A : Type 0} {a b : A} → some a ≡ some b → a ≡ b
some-injective h = cc

-- the value of the last entry with the name, or else the one given
unfoldable pub last_value : StrMap → Text → Text → Text
last_value [] name found = found
last_value ((n, v) ∷ attrs) name found = last_value attrs name (if text_eq n name then v else found)

-- what the loop has put into the map
abbrev Latest : StrMap → StrMap → StrMap → Type 0
Latest attrs m m' = (name : Text) → map_get m' name ≡ last_value attrs name (map_get m name)

module _ {F : Type 0} where
  -- each element is an object whose AttributeName and AttributeValue are the texts of the entry
  abbrev pub Lists : Items F → StrMap → Type 0
  Lists no_items [] = Unit
  Lists no_items (a ∷ attrs) = ⊥
  Lists (item v rest) [] = ⊥
  Lists (item v rest) ((n, w) ∷ attrs) =
      ((m : Fields F) × (v ≡ object m)
        × (at_key m (codes "AttributeName") ≡ string n)
        × (at_key m (codes "AttributeValue") ≡ string w))
      × Lists rest attrs

  as_string-finished : (v : Interface F) (s : Text) → as_string v ≡ finished s → v ≡ string s
  as_string-finished (string t) s h = ap string (finished-injective h)
  as_string-finished nil s h = absurd (cc)
  as_string-finished (bool b) s h = absurd (cc)
  as_string-finished (float64 f) s h = absurd (cc)
  as_string-finished (slice xs) s h = absurd (cc)
  as_string-finished (object m) s h = absurd (cc)

  as_object-finished : (v : Interface F) (m : Fields F) → as_object v ≡ finished m → v ≡ object m
  as_object-finished (object t) s h = ap object (finished-injective h)
  as_object-finished nil s h = absurd (cc)
  as_object-finished (bool b) s h = absurd (cc)
  as_object-finished (float64 f) s h = absurd (cc)
  as_object-finished (slice xs) s h = absurd (cc)
  as_object-finished (string t) s h = absurd (cc)

  as_slice-finished : (v : Interface F) (xs : Items F) → as_slice v ≡ finished xs → v ≡ slice xs
  as_slice-finished (slice t) s h = ap slice (finished-injective h)
  as_slice-finished nil s h = absurd (cc)
  as_slice-finished (bool b) s h = absurd (cc)
  as_slice-finished (float64 f) s h = absurd (cc)
  as_slice-finished (object m) s h = absurd (cc)
  as_slice-finished (string t) s h = absurd (cc)

  attributes_from_sound :
      (items : Items F) (m m' : StrMap)
      → attributes_from items m ≡ finished m'
      → (attrs : StrMap) × Lists items attrs × Latest attrs m m'
  unfolding attributes_from last_value map_get
  attributes_from_sound no_items m m' h =
      ([], tt, λ name. ap (λ x. map_get x name) (sym (finished-injective h)))
  attributes_from_sound (item v rest) m m' h =
      let (o, e, h1) = then_run-finished (as_object v) _ m' h in
      let (n, f, h2) = then_run-finished (as_string (at_key o (codes "AttributeName"))) _ m' h1 in
      let (w, g, h3) = then_run-finished (as_string (at_key o (codes "AttributeValue"))) _ m' h2 in
      let (attrs, listed, latest) = attributes_from_sound rest ((n, w) ∷ m) m' h3 in
      (
        (n, w) ∷ attrs,
        ((o, as_object-finished v o e, as_string-finished _ n f, as_string-finished _ w g), listed),
        latest,
      )

  attributes_from_total :
      (items : Items F) (attrs m : StrMap)
      → Lists items attrs
      → (m' : StrMap) × (attributes_from items m ≡ finished m')
  unfolding attributes_from
  attributes_from_total no_items [] m h = (m, refl)
  attributes_from_total no_items (a ∷ attrs) m h = absurd h
  attributes_from_total (item v rest) [] m h = absurd h
  attributes_from_total (item v rest) ((n, w) ∷ attrs) m ((o, e, f, g), h) =
      let (m', i) = attributes_from_total rest attrs ((n, w) ∷ m) h in (m', rw (e, f, g) i)

  module _ {Map : Type 0} (lib : Objects F Map) where
    -- GetAttributes of a text that is not empty returns a map exactly if TCertBatchRequest.AttributeSet is
    -- a list of objects in which AttributeName and AttributeValue are texts. In the map, each name
    -- has the value of the last object with this name.
    pub get_attributes_lem :
        (text : Text)
        → is_empty text ≡ false
        → ((m : StrMap)
            → get_attributes lib text ≡ finished (some m)
            → (items : Items F) × (attrs : StrMap) × (get_from lib
                  (lib.new_map_from_json text)
                  (codes "TCertBatchRequest.AttributeSet")
                ≡ slice items)
              × Lists items attrs
              × ((name : Text) → map_get m name ≡ last_value attrs name []))
          × ((items : Items F) (attrs : StrMap)
              → get_from lib (lib.new_map_from_json text) (codes "TCertBatchRequest.AttributeSet")
                ≡ slice items
              → Lists items attrs
              → (m : StrMap) × (get_attributes lib text ≡ finished (some m)))
    unfolding get_attributes map_get
    get_attributes_lem text nonempty =
        let at_path =
          get_from lib (lib.new_map_from_json text) (codes "TCertBatchRequest.AttributeSet") in
        (
          λ m h.
              let (items, e, h1) =
                then_run-finished (as_slice at_path) _ (some m) (rw nonempty at h) in
              let (m', f, h2) = then_run-finished (attributes_from items []) _ (some m) h1 in
              let (attrs, listed, latest) = attributes_from_sound items [] m' f in
              (
                items,
                attrs,
                as_slice-finished at_path items e,
                listed,
                subst (λ x. (name : Text) → map_get x name ≡ last_value attrs name [])
                    (some-injective (finished-injective h2)) latest,
              ),
          λ items attrs e listed.
              let (m, f) = attributes_from_total items attrs [] listed in
              (m, rw (nonempty, e, f) refl),
        )

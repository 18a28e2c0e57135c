-- ===== src/Strings.antt =====
-- Go's package strings, as far as the program uses it: ToLower (on ASCII), HasPrefix, Split at one byte,
-- Join with one byte; and util.StrContained (util/util.go).
pub mod SplitJoin
use copfvtci.Prelude.{
  ℕ, ◌+◌, Bool, true, false, ◌&&◌, ◌||◌, List, [], ◌∷◌, ◌++◌, map, Text, text_eq, leb, ◌==◌,
  if◌then◌else◌,
}

unfoldable pub lower_byte : ℕ → ℕ
lower_byte c = if leb 65 c && leb c 90 then c + 32 else c

-- strings.ToLower
unfoldable pub to_lower : Text → Text
unfolding lower_byte
to_lower s = map lower_byte s

-- strings.HasPrefix
unfoldable pub has_prefix : Text → Text → Bool
has_prefix s [] = true
has_prefix [] (c ∷ prefix) = false
has_prefix (b ∷ s) (c ∷ prefix) = (b == c) && has_prefix s prefix

-- util.StrContained
unfoldable pub str_contained : Text → List Text → Bool
str_contained str [] = false
str_contained str (s ∷ strs) = text_eq (to_lower s) (to_lower str) || str_contained str strs

-- ===== src/Startup/Naming.antt =====
-- What getDBName and getConnStr of cli/server/dbutil/dbutil.go make of a data source that is a list of
-- options.
use copfvtci.Prelude.{
  ℕ, ◌≡◌, inl, inr, refl, ap, ◌∙◌, Bool, true, false, ◌||◌, [], ◌∷◌, ◌++◌, Text, is_empty, ◌==◌,
  arith, Bool-cases,
}
use copfvtci.Strings.{lower_byte, to_lower, has_prefix}
use copfvtci.Startup.Sources.{
  is_space, word, dbname, name_at, match_at, find_name, get_db_name, replace_names, get_conn_str,
}

-- "dbname=" stands somewhere in the text
unfoldable pub mentions : Text → Bool
mentions [] = false
mentions (c ∷ s) = has_prefix (c ∷ s) dbname || mentions s

unfoldable pub has_slash : Text → Bool
has_slash [] = false
has_slash (c ∷ s) = c == 47 || has_slash s

unfoldable pub has_space : Text → Bool
has_space [] = false
has_space (c ∷ s) = is_space c || has_space s

-- nothing, or what a space separates from the option before
unfoldable pub set_apart : Text → Bool
set_apart [] = true
set_apart (c ∷ s) = is_space c

has_prefix-before :
    (p r q : Text) → has_space q ≡ false → has_prefix (p ++ 32 ∷ r) q ≡ has_prefix p q
unfolding has_prefix has_space
has_prefix-before p r [] h = refl
has_prefix-before [] r (d ∷ q) h = ground arith
has_prefix-before (c ∷ p) r (d ∷ q) h = ground (arith, has_prefix-before p r q)

no_match :
    (c : ℕ) (p r : Text) → has_prefix (c ∷ p) dbname ≡ false → name_at (c ∷ (p ++ 32 ∷ r)) ≡ []
unfolding name_at has_space
no_match c p r h = simp (has_prefix-before (c ∷ p) r dbname refl, h)

space_at : (s : Text) → name_at (32 ∷ s) ≡ []
unfolding name_at has_prefix
space_at s = refl

not_slash :
    (c : ℕ) (s : Text) → has_slash (c ∷ s) ≡ false → ((c == 47) ≡ false) × (has_slash s ≡ false)
unfolding has_slash
not_slash c s h = (ground arith, ground arith)

not_here :
    (c : ℕ) (s : Text)
    → mentions (c ∷ s) ≡ false
    → (has_prefix (c ∷ s) dbname ≡ false) × (mentions s ≡ false)
unfolding mentions
not_here c s h = elim (Bool-cases (has_prefix (c ∷ s) dbname)) [
  | inl e ↦ absurd (cc)
  | inr e ↦ (e, ground arith)
]

find_name-next :
    (c : ℕ) (s : Text) → (c == 47) ≡ false → name_at (c ∷ s) ≡ [] → find_name (c ∷ s) ≡ find_name s
unfolding find_name match_at
find_name-next c s h k = simp (h, k)

find_name-before :
    (pre rest : Text)
    → has_slash pre ≡ false
    → mentions pre ≡ false
    → find_name (pre ++ 32 ∷ rest) ≡ find_name rest
find_name-before [] rest h k = find_name-next 32 rest refl (space_at rest)
find_name-before (c ∷ pre) rest h k =
    let (here, slashless) = not_slash c pre h in
    let (unnamed, quiet) = not_here c pre k in
    find_name-next c (pre ++ 32 ∷ rest) here (no_match c pre rest unnamed)
    ∙ find_name-before pre rest slashless quiet

word-append :
    (name post : Text) → has_space name ≡ false → set_apart post ≡ true → word (name ++ post) ≡ name
unfolding has_space set_apart
word-append [] [] h k = refl
word-append [] (c ∷ post) h k = ground arith
word-append (c ∷ name) post h k = ground (arith, word-append name post)

replace_names-next :
    (c : ℕ) (s : Text)
    → name_at (c ∷ s) ≡ []
    → replace_names false (c ∷ s) ≡ c ∷ replace_names false s
unfolding replace_names
replace_names-next c s k = simp k

replace_names-before :
    (pre rest : Text)
    → mentions pre ≡ false
    → replace_names false (pre ++ 32 ∷ rest) ≡ pre ++ 32 ∷ replace_names false rest
replace_names-before [] rest k = replace_names-next 32 rest (space_at rest)
replace_names-before (c ∷ pre) rest k =
    let (unnamed, quiet) = not_here c pre k in
    replace_names-next c (pre ++ 32 ∷ rest) (no_match c pre rest unnamed)
    ∙ ap (λ t. c ∷ t) (replace_names-before pre rest quiet)

replace_names-inside :
    (name post : Text)
    → has_space name ≡ false
    → set_apart post ≡ true
    → replace_names true (name ++ post) ≡ replace_names false post
unfolding replace_names has_space set_apart
replace_names-inside [] [] h k = refl
replace_names-inside [] (c ∷ post) h k = ground arith
replace_names-inside (c ∷ name) post h k = ground (arith, replace_names-inside name post)

lower_byte-space : (c : ℕ) → is_space c ≡ false → is_space (lower_byte c) ≡ false
unfolding lower_byte
lower_byte-space c h = ground arith

to_lower-space : (s : Text) → has_space s ≡ false → has_space (to_lower s) ≡ false
unfolding to_lower has_space
to_lower-space [] h = refl
to_lower-space (c ∷ s) h = ground (arith, lower_byte-space c, to_lower-space s)

lower_byte-slash : (c : ℕ) → (c == 47) ≡ false → (lower_byte c == 47) ≡ false
unfolding lower_byte
lower_byte-slash c h = ground arith

to_lower-slash : (s : Text) → has_slash s ≡ false → has_slash (to_lower s) ≡ false
unfolding to_lower has_slash
to_lower-slash [] h = refl
to_lower-slash (c ∷ s) h = ground (arith, lower_byte-slash c, to_lower-slash s)

to_lower-apart : (s : Text) → set_apart s ≡ true → set_apart (to_lower s) ≡ true
unfolding to_lower set_apart lower_byte
to_lower-apart [] h = refl
to_lower-apart (c ∷ s) h = ground arith

to_lower-append : (s t : Text) → to_lower (s ++ t) ≡ to_lower s ++ to_lower t
unfolding to_lower
to_lower-append [] t = refl
to_lower-append (c ∷ s) t = ap (λ x. lower_byte c ∷ x) (to_lower-append s t)

named :
    (name post : Text)
    → has_space name ≡ false
    → set_apart post ≡ true
    → name_at (dbname ++ name ++ post) ≡ name
unfolding name_at has_prefix
named name post h k = word-append name post h k

find_name-named :
    (name post : Text)
    → is_empty name ≡ false
    → has_space name ≡ false
    → set_apart post ≡ true
    → find_name (dbname ++ name ++ post) ≡ name
unfolding find_name match_at
find_name-named name post some h k = simp (named name post h k, some)

replace_names-named :
    (name post : Text)
    → is_empty name ≡ false
    → has_space name ≡ false
    → set_apart post ≡ true
    → replace_names false (dbname ++ name ++ post) ≡ replace_names false post
unfolding replace_names
replace_names-named name post some h k =
    simp (named name post h k, some, replace_names-inside name post h k)

is_empty-to_lower : (s : Text) → is_empty (to_lower s) ≡ is_empty s
unfolding to_lower
is_empty-to_lower [] = refl
is_empty-to_lower (c ∷ s) = refl

has_prefix-to_lower :
    (s q : Text) → has_prefix s q ≡ true → has_prefix (to_lower s) (to_lower q) ≡ true
unfolding to_lower has_prefix
has_prefix-to_lower s [] h = refl
has_prefix-to_lower [] (d ∷ q) h = absurd (cc)
has_prefix-to_lower (c ∷ s) (d ∷ q) h = ground (arith, has_prefix-to_lower s q)

dbname-to_lower : (s : Text) → has_prefix s dbname ≡ true → has_prefix (to_lower s) dbname ≡ true
unfolding to_lower lower_byte
dbname-to_lower s h = has_prefix-to_lower s dbname h

quiet_here :
    (c : ℕ) (s : Text)
    → has_prefix (c ∷ s) dbname ≡ false
    → mentions s ≡ false
    → mentions (c ∷ s) ≡ false
unfolding mentions
quiet_here c s h k = ground arith

mentions-to_lower : (s : Text) → mentions (to_lower s) ≡ false → mentions s ≡ false
unfolding to_lower mentions
mentions-to_lower [] h = refl
mentions-to_lower (c ∷ s) h =
    let (here, quiet) = not_here (lower_byte c) (to_lower s) h in
    elim (Bool-cases (has_prefix (c ∷ s) dbname)) [
      | inl e ↦ let lowered = dbname-to_lower (c ∷ s) e in absurd (cc)
      | inr e ↦ quiet_here c s e (mentions-to_lower s quiet)
    ]

lowered :
    (name post : Text)
    → to_lower (32 ∷ (dbname ++ name ++ post)) ≡ 32 ∷ (dbname ++ to_lower name ++ to_lower post)
unfolding to_lower lower_byte
lowered name post = ap (λ t. 32 ∷ (dbname ++ t)) (to_lower-append name post)

-- In a data source where a space and `dbname=` stand before a name that is not empty and has no space in it,
-- and neither a slash nor another `dbname=`, in whatever letters, stands before these: getDBName returns
-- the name in small letters, and getConnStr takes the option away and leaves what stands before it as it
-- is. After the name comes a space, or nothing.
pub get_db_name_lem :
    (pre name post : Text)
    → has_slash pre ≡ false
    → mentions (to_lower pre) ≡ false
    → is_empty name ≡ false
    → has_space name ≡ false
    → set_apart post ≡ true
    → (get_db_name (pre ++ 32 ∷ (dbname ++ name ++ post)) ≡ to_lower name)
      × (get_conn_str (pre ++ 32 ∷ (dbname ++ name ++ post)) ≡ pre ++ 32 ∷ get_conn_str post)
unfolding get_db_name get_conn_str
get_db_name_lem pre name post no_slash quiet some no_space apart =
    let rest = dbname ++ to_lower name ++ to_lower post in
    (
      ap find_name (to_lower-append pre (32 ∷ (dbname ++ name ++ post)))
          ∙ ap (λ t. find_name (to_lower pre ++ t)) (lowered name post)
          ∙ find_name-before (to_lower pre) rest (to_lower-slash pre no_slash) quiet
          ∙ find_name-named (to_lower name) (to_lower post) (is_empty-to_lower name ∙ some)
              (to_lower-space name no_space) (to_lower-apart post apart),
      replace_names-before pre (dbname ++ name ++ post) (mentions-to_lower pre quiet)
          ∙ ap (λ t. pre ++ 32 ∷ t) (replace_names-named name post some no_space apart),
    )

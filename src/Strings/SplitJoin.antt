-- ===== src/Strings/SplitJoin.antt =====
-- strings.Split at one byte and strings.Join with one byte, and how they undo each other.
use copfvtci.Prelude.{
  ℕ, ◌≡◌, ◌≢◌, refl, ap, ◌∙◌, List, [], ◌∷◌, ◌++◌, arith, Text, All, ◌==◌, if◌then◌else◌,
  Bool-cases, inl, inr,
}

-- the first part grows in front of the parts that follow
abbrev grow : ℕ → List Text → List Text
grow c [] = (c ∷ []) ∷ []
grow c (p ∷ ps) = (c ∷ p) ∷ ps

unfoldable pub split : Text → ℕ → List Text
split [] sep = [] ∷ []
split (c ∷ s) sep = if c == sep then [] ∷ split s sep else grow c (split s sep)

unfoldable pub join : List Text → ℕ → Text
join [] sep = []
join (p ∷ []) sep = p
join (p ∷ q ∷ ps) sep = p ++ sep ∷ join (q ∷ ps) sep

abbrev pub Lacks : ℕ → Text → Type 0
Lacks sep = All (λ c. c ≢ sep)

pub split-ne-nil : (s : Text) (sep : ℕ) → split s sep ≢ []
unfolding split
split-ne-nil [] sep = ground arith
split-ne-nil (c ∷ s) sep = ground (arith, split-ne-nil s sep)

join-grow : (c sep : ℕ) (ps : List Text) → join (grow c ps) sep ≡ c ∷ join ps sep
unfolding join
join-grow c sep [] = refl
join-grow c sep (p ∷ []) = refl
join-grow c sep (p ∷ q ∷ ps) = refl

join-nil-cons : (sep : ℕ) (ps : List Text) → ps ≢ [] → join ([] ∷ ps) sep ≡ sep ∷ join ps sep
unfolding join
join-nil-cons sep [] h = absurd (h refl)
join-nil-cons sep (p ∷ ps) h = refl

-- Joining what Split returns gives the text back.
pub join-split : (s : Text) (sep : ℕ) → join (split s sep) sep ≡ s
unfolding split
join-split [] sep = unfold join in refl
join-split (c ∷ s) sep = elim (Bool-cases (c == sep)) [
  | inl e ↦
      rw (e, join-nil-cons sep (split s sep) (split-ne-nil s sep), join-split s sep) (ground arith)
  | inr e ↦ rw (e, join-grow c sep (split s sep), join-split s sep)
]

pub split-append : (p s : Text) (sep : ℕ) → Lacks sep p → split (p ++ sep ∷ s) sep ≡ p ∷ split s sep
unfolding split
split-append [] s sep h = ground arith
split-append (c ∷ p) s sep (hc, hp) = ground (arith, split-append p s sep hp)

pub split-Lacks : (p : Text) (sep : ℕ) → Lacks sep p → split p sep ≡ p ∷ []
unfolding split
split-Lacks [] sep h = refl
split-Lacks (c ∷ p) sep (hc, hp) = ground (arith, split-Lacks p sep hp)

-- Split takes a joined list of parts apart again, if no part holds the separator.
pub split-join :
    (p : Text) (ps : List Text) (sep : ℕ)
    → All (Lacks sep) (p ∷ ps)
    → split (join (p ∷ ps) sep) sep ≡ p ∷ ps
unfolding join
split-join p [] sep (hp, _) = split-Lacks p sep hp
split-join p (q ∷ ps) sep (hp, h) =
    split-append p (join (q ∷ ps) sep) sep hp ∙ ap (λ t. p ∷ t) (split-join q ps sep h)

split_Lacks-grow :
    (c sep : ℕ) (ps : List Text) → c ≢ sep → All (Lacks sep) ps → All (Lacks sep) (grow c ps)
split_Lacks-grow c sep [] h hp = ((h, tt), tt)
split_Lacks-grow c sep (p ∷ ps) h (hp, hps) = ((h, hp), hps)

-- No part that Split returns holds the separator.
pub split-All-Lacks : (s : Text) (sep : ℕ) → All (Lacks sep) (split s sep)
unfolding split
split-All-Lacks [] sep = (tt, tt)
split-All-Lacks (c ∷ s) sep = elim (Bool-cases (c == sep)) [
  | inl e ↦ rw e (tt, split-All-Lacks s sep)
  | inr e ↦ rw e (split_Lacks-grow c sep (split s sep) (ground arith) (split-All-Lacks s sep))
]

-- ===== src/Prelude/Permuted.antt =====
-- A predicate on the elements of a list, and a symmetric relation of every two of them, along a permutation.
use mathlib.Core.Path.{subst}
use mathlib.Core.List.{List, [], ◌∷◌, Permᴰ}
use copfvtci.Prelude.Lists.{All}

module _ {A : Type 0} where
  pub All-Permᴰ : (P : A → Type 0) {xs ys : List A} → Permᴰ xs ys → All P xs → All P ys
  All-Permᴰ P Permᴰ.nil h = tt
  All-Permᴰ P (Permᴰ.cons e d) (p, h) = (subst P e p, All-Permᴰ P d h)
  All-Permᴰ P (Permᴰ.swap e f) (p, (q, h)) = (subst P f q, (subst P e p, h))
  All-Permᴰ P (Permᴰ.trans d e) h = All-Permᴰ P e (All-Permᴰ P d h)

  module _ (R : A → A → Type 0) where
    abbrev pub Pairwise : List A → Type 0
    Pairwise [] = Unit
    Pairwise (x ∷ xs) = All (R x) xs × Pairwise xs

    pub Pairwise-Permᴰ :
        ((x y : A) → R x y → R y x) → {xs ys : List A} → Permᴰ xs ys → Pairwise xs → Pairwise ys
    Pairwise-Permᴰ symmetric Permᴰ.nil h = tt
    Pairwise-Permᴰ symmetric (Permᴰ.cons {l₂ = l₂} e d) (r, h) =
        (subst (λ x. All (R x) l₂) e (All-Permᴰ (R _) d r), Pairwise-Permᴰ symmetric d h)
    Pairwise-Permᴰ symmetric (Permᴰ.swap {a = a} {a' = a'} {l = l} e f) ((r, to_a), (to_b, h)) = (
      (subst (R a') e (subst (λ z. R z a) f (symmetric _ _ r)), subst (λ z. All (R z) l) f to_b),
      (subst (λ z. All (R z) l) e to_a, h),
    )
    Pairwise-Permᴰ symmetric (Permᴰ.trans d e) h =
        Pairwise-Permᴰ symmetric e (Pairwise-Permᴰ symmetric d h)

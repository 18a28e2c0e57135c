-- ===== src/Util/Quotes.antt =====
-- What RemoveQuotes of util/util.go returns.
use copfvtci.Prelude.{
  ℕ, ◌-◌, ◌≡◌, ◌⊎◌, ◌↔◌, inl, inr, ap, ◌∙◌, [], ◌∷◌, ◌++◌, Text, length, length-append, take,
  take-append, arith, ◌==◌, ==_iff, Bool-cases, true,
}
use copfvtci.Errors.{returned, panicked}
use copfvtci.Util.{ends_in, within, inner, remove_quotes}

ends_in-append : (q : ℕ) (s : Text) → ends_in q (s ++ q ∷ []) ≡ true
unfolding ends_in
ends_in-append q [] = ground arith
ends_in-append q (c ∷ []) = ground arith
ends_in-append q (c ∷ d ∷ s) = ends_in-append q (d ∷ s)

inside : (q : ℕ) (s : Text) → take (length (s ++ q ∷ []) - 1) (s ++ q ∷ []) ≡ s
inside q s =
    let long = length-append s (q ∷ []) in
    ap (λ k. take k (s ++ q ∷ [])) (omega arith) ∙ take-append s (q ∷ [])

inner-append : (q : ℕ) (s : Text) → inner (q ∷ (s ++ q ∷ [])) ≡ returned s
inner-append q s = let long = length-append s (q ∷ []) in ground (arith, inside q s)

within-append : (q : ℕ) (s : Text) → within q (q ∷ (s ++ q ∷ [])) ≡ true
unfolding ends_in
within-append q s = ground (arith, ends_in-append q (q ∷ s))

-- A text between two single quotes, or two double quotes, loses them, whatever it holds.
pub remove_quotes-append :
    (q : ℕ) (s : Text) → (q ≡ 39) ⊎ (q ≡ 34) → remove_quotes (q ∷ (s ++ q ∷ [])) ≡ returned s
unfolding remove_quotes
remove_quotes-append q s h = elim h [
  | inl e ↦ rw e (ground (arith, within-append 39 s, inner-append 39 s))
  | inr e ↦ rw e (ground (arith, within-append 34 s, inner-append 34 s))
]

one_quote : (c : ℕ) → remove_quotes (c ∷ []) ≡ panicked → (c ∷ [] ≡ 39 ∷ []) ⊎ (c ∷ [] ≡ 34 ∷ [])
unfolding remove_quotes ends_in
one_quote c h = elim (Bool-cases (c == 39)) [
  | inl e ↦ inl (ap (λ x. x ∷ []) ((==_iff c 39).0 e))
  | inr e ↦ elim (Bool-cases (c == 34)) [
    | inl f ↦ inr (ap (λ x. x ∷ []) ((==_iff c 34).0 f))
    | inr f ↦ absurd (ground arith)
  ]
]

quote_panics : (str : Text) → (str ≡ 39 ∷ []) ⊎ (str ≡ 34 ∷ []) → remove_quotes str ≡ panicked
unfolding remove_quotes ends_in
quote_panics str (inl e) = rw e
quote_panics str (inr e) = rw e

only_quote : (str : Text) → remove_quotes str ≡ panicked → (str ≡ 39 ∷ []) ⊎ (str ≡ 34 ∷ [])
unfolding remove_quotes
only_quote [] h = absurd (cc)
only_quote (c ∷ []) h = one_quote c h
only_quote (c ∷ d ∷ s) h = absurd (ground arith)

-- RemoveQuotes panics exactly on the texts that are one quote, single or double.
pub remove_quotes_panicked :
    (str : Text) → (remove_quotes str ≡ panicked) ↔ ((str ≡ 39 ∷ []) ⊎ (str ≡ 34 ∷ []))
remove_quotes_panicked str = (only_quote str, quote_panics str)

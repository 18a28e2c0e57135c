-- ===== src/TCert/Decimal.antt =====
-- strconv.Itoa on the numbers that lib/tcert prints: indexes and positions, which are not negative.
use copfvtci.Prelude.{
  ℕ, zero, suc, ◌+◌, ◌-◌, ◌*◌, ◌/◌, ◌%◌, ◌<◌, ◌≡◌, refl, sym, ap, ◌∙◌, true, false, inl, inr, [],
  ◌∷◌, ◌++◌, arith, Text, ltb, Bool-cases,
}

-- the digits of a number below 10 ^ fuel, or of any number below the fuel
unfoldable pub itoa_from : ℕ → ℕ → Text
itoa_from zero n = []
itoa_from (suc fuel) n = elim (ltb n 10) [
  | true ↦ (n + 48) ∷ []
  | false ↦ itoa_from fuel (n / 10) ++ (n % 10 + 48) ∷ []
]

unfoldable pub itoa : ℕ → Text
unfolding itoa_from
itoa n = itoa_from (suc n) n

-- reading the digits back
unfoldable pub value_of : ℕ → Text → ℕ
value_of acc [] = acc
value_of acc (c ∷ s) = value_of (acc * 10 + (c - 48)) s

value_of-append :
    (acc : ℕ) (s : Text) (c : ℕ) → value_of acc (s ++ c ∷ []) ≡ value_of acc s * 10 + (c - 48)
unfolding value_of
value_of-append acc [] c = refl
value_of-append acc (d ∷ s) c = value_of-append (acc * 10 + (d - 48)) s c

value_of-itoa_from : (fuel n : ℕ) → n < fuel → value_of 0 (itoa_from fuel n) ≡ n
unfolding itoa_from
value_of-itoa_from zero n h = elim h [ ]
value_of-itoa_from (suc fuel) n h = elim (Bool-cases (ltb n 10)) [
  | inl small ↦ rw (small, itoa_from) (unfold value_of in omega arith)
  | inr large ↦
      rw (large, itoa_from)
        (value_of-append 0 (itoa_from fuel (n / 10)) (n % 10 + 48)
          ∙ ground (arith, value_of-itoa_from fuel (n / 10)))
]

-- Different numbers print differently.
pub itoa-injective : (m n : ℕ) → itoa m ≡ itoa n → m ≡ n
unfolding itoa
itoa-injective m n e =
    sym (value_of-itoa_from (suc m) m (omega arith))
    ∙ ap (value_of 0) e
    ∙ value_of-itoa_from (suc n) n (omega arith)

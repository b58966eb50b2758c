-- ===== src/Base/Decimal.antt =====
-- What is true of each decimal digit is true of `str(n)`.
use miracast_device.Base.{
  ℕ, zero, suc, ◌+◌, ◌/◌, ◌%◌, ◌≤◌, ◌≡◌, refl, Bool, true, false, [], ◌∷◌, ◌++◌, all, all-append,
  decimal, decimal_from, ltb, arith,
}

module _ (p : ℕ → Bool) (digit : (d : ℕ) → d ≤ 9 → p (48 + d) ≡ true) where
  all-decimal_from : (fuel n : ℕ) → all p (decimal_from fuel n) ≡ true
  unfolding decimal_from
  all-decimal_from zero n = refl
  all-decimal_from (suc fuel) n =
      elim (ltb n 10)
          as (λ b.
            ltb n 10 ≡ b
            → all p (elim b [
              | true ↦ (48 + n) ∷ []
              | false ↦ decimal_from fuel (n / 10) ++ (48 + n % 10) ∷ []
            ])
              ≡ true) [
                | true ↦ λ e. ground (arith, e, digit n)
                | false ↦ λ e.
                    all-append p (decimal_from fuel (n / 10)) ((48 + n % 10) ∷ [])
                      (all-decimal_from fuel (n / 10)) (ground (arith, digit (n % 10)))
              ]
        refl

  pub all-decimal : (n : ℕ) → all p (decimal n) ≡ true
  unfolding decimal
  all-decimal n = all-decimal_from (suc n) n

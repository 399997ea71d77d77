-- ===== src/Accounts/Digits.antt =====
-- modules/auth/auth.service.ts: the codes of `generateVerificationCode`.
use ubuy_backend.Base.{
  ℕ, zero, suc, ◌+◌, ◌*◌, ◌^◌, ◌%◌, ◌/◌, ◌≤◌, ◌<◌, ◌≡◌, refl, ◌-◌, ap, inl, inr, [], ◌∷◌, ◌++◌,
  arith, length, ltb, Bool-cases,
}
use ubuy_backend.Texts.{Text}
use ubuy_backend.Auth.Keys.{Keys}
use ubuy_backend.Auth.Codes.{decimal_upto, decimal, code_of_draw}

-- The number that a decimal numeral stands for.
abbrev pub value_from : ℕ → Text → ℕ
value_from n [] = n
value_from n (x ∷ t) = value_from (10 * n + (x - 48)) t

length-snoc : (t : Text) (x : ℕ) → length (t ++ x ∷ []) ≡ suc (length t)
length-snoc [] x = refl
length-snoc (y ∷ t) x = omega (arith, length-snoc t x)

value_from-snoc :
    (n : ℕ) (t : Text) (x : ℕ) → value_from n (t ++ x ∷ []) ≡ 10 * value_from n t + (x - 48)
value_from-snoc n [] x = refl
value_from-snoc n (y ∷ t) x = value_from-snoc (10 * n + (y - 48)) t x

pow_positive : (d : ℕ) → 1 ≤ 10 ^ d
pow_positive zero = omega arith
pow_positive (suc d) = omega (arith, pow_positive d)

-- A number of `d + 1` digits has that many, if there is fuel for them.
length-decimal_upto :
    (d fuel n : ℕ) → d ≤ fuel → 10 ^ d ≤ n → n < 10 ^ suc d → length (decimal_upto fuel n) ≡ suc d
length-decimal_upto zero zero n h low high = refl
length-decimal_upto zero (suc fuel) n h low high = ground arith
length-decimal_upto (suc d) zero n h low high = absurd (omega arith)
length-decimal_upto (suc d) (suc fuel) n h low high = elim (Bool-cases (ltb n 10)) [
  | inl one ↦ absurd (ground (arith, pow_positive d))
  | inr more ↦
      rw (more, length-snoc (decimal_upto fuel (n / 10)) (48 + n % 10))
        (ap suc (
          length-decimal_upto d fuel (n / 10) (omega arith) (omega (arith, low))
            (omega (arith, high))))
]

value_from-decimal_upto : (fuel n : ℕ) → n < 10 ^ suc fuel → value_from 0 (decimal_upto fuel n) ≡ n
value_from-decimal_upto zero n h = omega arith
value_from-decimal_upto (suc fuel) n h = elim (Bool-cases (ltb n 10)) [
  | inl one ↦ rw one (omega arith)
  | inr more ↦
      rw
        (
          more,
          value_from-snoc 0 (decimal_upto fuel (n / 10)) (48 + n % 10),
          value_from-decimal_upto fuel (n / 10) (omega (arith, h)),
        )
        (omega arith)
]

module _ (k : Keys) where
  -- A code of `generateVerificationCode` has six characters, the digits of the number that was drawn,
  -- which is at least 100000 and below 1000000.
  pub code_of_draw-length :
      (n : ℕ)
      → (length (code_of_draw k n) ≡ 6)
        × (value_from 0 (code_of_draw k n) ≡ 100000 + k.random_below n 900000)
        × (k.random_below n 900000 < 900000)
  unfolding code_of_draw decimal
  code_of_draw-length n =
      let small = k.random_below-lt n 900000 (omega arith) in
      (
        length-decimal_upto 5 19 (100000 + k.random_below n 900000) (omega arith) (omega arith)
            (omega (arith, small)),
        value_from-decimal_upto 19 (100000 + k.random_below n 900000) (omega (arith, small)),
        small,
      )

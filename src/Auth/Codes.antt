-- ===== src/Auth/Codes.antt =====
-- modules/auth/auth.service.ts: `generateVerificationCode` and `generateCodeExpiry`, and the printing
-- of a number by `toString`.
use ubuy_backend.Base.{
  ℕ, zero, suc, ◌+◌, ◌*◌, ◌/◌, ◌%◌, ◌≡◌, ◌≤◌, ◌<◌, [], ◌∷◌, ◌++◌, length, ltb, arith, if◌then◌else◌,
}
use ubuy_backend.Texts.{Text}
use ubuy_backend.Auth.Keys.{Keys}
use ubuy_backend.Platform.World.{Action, ok}

-- The decimal digits of `n`, at most `fuel + 1` of them.
abbrev pub decimal_upto : ℕ → ℕ → Text
decimal_upto zero n = (48 + n % 10) ∷ []
decimal_upto (suc fuel) n =
    let rest = decimal_upto fuel (n / 10) ++ (48 + n % 10) ∷ [] in
    if ltb n 10 then (48 + n) ∷ [] else rest

-- A number below 10 ^ 20.
unfoldable pub decimal : ℕ → Text
decimal n = decimal_upto 19 n

-- `setMinutes(getMinutes() + 10)`
abbrev pub code_lifetime_ms : ℕ
code_lifetime_ms = 10 * 60 * 1000

module _ (k : Keys) where
  -- `Math.floor(low + Math.random() * m)`
  unfoldable pub draw : ℕ → ℕ → Action ℕ
  draw low m w = (ok (low + k.random_below w.draws m), record w { draws = w.draws + 1 })

  unfoldable pub code_of_draw : ℕ → Text
  unfolding decimal
  code_of_draw n = decimal (100000 + k.random_below n 900000)

  unfoldable pub generate_verification_code : Action Text
  unfolding code_of_draw
  generate_verification_code w = (ok (code_of_draw w.draws), record w { draws = w.draws + 1 })

  -- The number of decimal digits.
  decimal_six : (n : ℕ) → 100000 ≤ n → n < 1000000 → length (decimal_upto 5 n) ≡ 6
  decimal_six n h h' = ground arith

-- ===== src/Accounts/Names.antt =====
-- modules/auth/auth.service.ts: the usernames that `generateUniqueUsername` answers.
use ubuy_backend.Base.{
  ℕ, zero, suc, ◌+◌, ◌-◌, ◌%◌, ◌/◌, ◌≤◌, ◌≡◌, refl, ◌⊎◌, inl, inr, true, ◌&&◌, ◌==◌, [], ◌∷◌, ◌++◌,
  arith, All, length, take, drop, ltb, Bool-cases,
}
use ubuy_backend.Texts.{Text, codes, underscore, or_text}
use ubuy_backend.Platform.{Env}
use ubuy_backend.Platform.World.{World, ok}
use ubuy_backend.Auth.Keys.{Keys}
use ubuy_backend.Auth.Codes.{decimal_upto, decimal}
use ubuy_backend.Auth.Usernames.{
  is_name_char, to_name_chars, starts_low, collapse, trim_start, is_nil, trim_end, last_8,
  to_username_base, suffix_of, candidate, drawn, fallback_name, is_free, max_attempts, try_names,
  generate_unique_username,
}

-- A text of lower-case letters, digits and underscores.
abbrev pub IsName : Text → Type 0
IsName t = All (λ x. is_name_char x ≡ true) t

append-IsName : (s t : Text) → IsName s → IsName t → IsName (s ++ t)
append-IsName [] t h k = k
append-IsName (x ∷ s) t (h, hs) k = (h, append-IsName s t hs k)

take-IsName : (n : ℕ) (t : Text) → IsName t → IsName (take n t)
take-IsName zero t h = tt
take-IsName (suc n) [] h = tt
take-IsName (suc n) (x ∷ t) (h, hs) = (h, take-IsName n t hs)

drop-IsName : (n : ℕ) (t : Text) → IsName t → IsName (drop n t)
drop-IsName zero t h = h
drop-IsName (suc n) [] h = tt
drop-IsName (suc n) (x ∷ t) (h, hs) = drop-IsName n t hs

length-take : (n : ℕ) (t : Text) → length (take n t) ≤ n
length-take zero t = omega arith
length-take (suc n) [] = omega arith
length-take (suc n) (x ∷ t) = omega (arith, length-take n t)

length-drop : (n : ℕ) (t : Text) → length (drop n t) ≡ length t - n
length-drop zero t = omega arith
length-drop (suc n) [] = omega arith
length-drop (suc n) (x ∷ t) = omega (arith, length-drop n t)

-- The four steps of `toUsernameBase`.
to_name_chars-IsName : (t : Text) → IsName (to_name_chars t)
to_name_chars-IsName [] = tt
to_name_chars-IsName (x ∷ t) = (ground arith, to_name_chars-IsName t)

collapse-IsName : (t : Text) → IsName t → IsName (collapse t)
unfolding collapse
collapse-IsName [] h = tt
collapse-IsName (x ∷ t) (h, hs) = elim (Bool-cases (x == underscore && starts_low (collapse t))) [
  | inl again ↦ rw again (collapse-IsName t hs)
  | inr new ↦ rw new (h, collapse-IsName t hs)
]

trim_start-IsName : (t : Text) → IsName t → IsName (trim_start t)
unfolding trim_start
trim_start-IsName [] h = tt
trim_start-IsName (x ∷ t) (h, hs) = elim (Bool-cases (x == underscore)) [
  | inl low ↦ rw low (trim_start-IsName t hs)
  | inr kept ↦ rw kept (h, hs)
]

trim_end-IsName : (t : Text) → IsName t → IsName (trim_end t)
unfolding trim_end
trim_end-IsName [] h = tt
trim_end-IsName (x ∷ t) (h, hs) = elim (Bool-cases (x == underscore && is_nil (trim_end t))) [
  | inl low ↦ rw low tt
  | inr kept ↦ rw kept (h, trim_end-IsName t hs)
]

or_text-IsName : (s t : Text) → IsName s → IsName t → IsName (or_text s t)
or_text-IsName [] t h k = k
or_text-IsName (x ∷ s) t h k = h

decimal_upto-IsName : (fuel n : ℕ) → IsName (decimal_upto fuel n)
decimal_upto-IsName zero n = (ground arith, tt)
decimal_upto-IsName (suc fuel) n = elim (Bool-cases (ltb n 10)) [
  | inl one ↦ rw one (ground arith, tt)
  | inr more ↦ rw more (
      append-IsName (decimal_upto fuel (n / 10)) ((48 + n % 10) ∷ [])
        (decimal_upto-IsName fuel (n / 10)) (ground arith, tt))
]

decimal-IsName : (n : ℕ) → IsName (decimal n)
unfolding decimal
decimal-IsName n = decimal_upto-IsName 19 n

module _ (k : Keys) where
  to_username_base-IsName : (t : Text) → IsName (to_username_base k t)
  unfolding to_username_base
  to_username_base-IsName t =
      or_text-IsName (trim_end (trim_start (collapse (to_name_chars (k.lower t))))) (codes "user")
        (trim_end-IsName (trim_start (collapse (to_name_chars (k.lower t)))) (
          trim_start-IsName (collapse (to_name_chars (k.lower t)))
            (collapse-IsName (to_name_chars (k.lower t)) (to_name_chars-IsName (k.lower t)))))
        (ground arith)

  suffix_of-IsName : (attempt draws : ℕ) → IsName (suffix_of k attempt draws)
  unfolding suffix_of
  suffix_of-IsName zero draws = tt
  suffix_of-IsName (suc n) draws = (refl, decimal-IsName (1000 + k.random_below draws 9000))

  -- What a generated name is like.
  pub record IsGenerated (e : Env) (name : Text) (w : World) : Type 0 where
    pub fits : length name ≤ 30
    pub spelled : IsName name
    pub taken_by_nobody : (is_free e k name w ≡ true) ⊎ (name ≡ fallback_name k w.now)

  candidate-IsGenerated :
      (e : Env) (base : Text) (attempt draws : ℕ) (w : World)
      → IsName base
      → is_free e k (candidate k base attempt draws) w ≡ true
      → IsGenerated e (candidate k base attempt draws) w
  unfolding candidate
  candidate-IsGenerated e base attempt draws w h free = record {
    fits = length-take 30 (base ++ suffix_of k attempt draws);
    spelled =
        take-IsName 30 (base ++ suffix_of k attempt draws)
          (append-IsName base (suffix_of k attempt draws) h (suffix_of-IsName attempt draws));
    taken_by_nobody = inl free;
  }

  fallback_name-IsGenerated : (e : Env) (w : World) → IsGenerated e (fallback_name k w.now) w
  unfolding fallback_name
  fallback_name-IsGenerated e w = record {
    fits = omega (arith, length-drop (length (decimal w.now) - 8) (decimal w.now));
    spelled =
        append-IsName (codes "user_") (last_8 (decimal w.now)) (ground arith)
          (drop-IsName (length (decimal w.now) - 8) (decimal w.now) (decimal-IsName w.now));
    taken_by_nobody = inr refl;
  }

  -- The names do not depend on what has been drawn.
  drawn-IsGenerated :
      (e : Env) (name : Text) (attempt : ℕ) (w : World)
      → IsGenerated e name (drawn k attempt w)
      → IsGenerated e name w
  unfolding is_free
  drawn-IsGenerated e name zero w h = h
  drawn-IsGenerated e name (suc n) w h = record {
    fits = h.fits;
    spelled = h.spelled;
    taken_by_nobody = h.taken_by_nobody;
  }

module _ (e : Env) (k : Keys) where
  try_names-IsGenerated :
      (left attempt : ℕ) (base : Text) (w : World)
      → IsName base
      → IsGenerated k e (try_names e k left attempt base w).0 w
  unfolding try_names
  try_names-IsGenerated zero attempt base w h = fallback_name-IsGenerated k e w
  try_names-IsGenerated (suc left) attempt base w h =
      elim (Bool-cases (is_free e k (candidate k base attempt w.draws) w)) [
        | inl free ↦ rw free (candidate-IsGenerated k e base attempt w.draws w h free)
        | inr taken ↦ rw taken (
            drawn-IsGenerated k e (try_names e k left (suc attempt) base (drawn k attempt w)).0
              attempt w (try_names-IsGenerated left (suc attempt) base (drawn k attempt w) h))
      ]

  -- Each attempt after the first draws one number.
  try_names-draws :
      (left attempt : ℕ) (base : Text) (w : World)
      → let (name, w') = try_names e k left (suc attempt) base w in
        (w'.draws ≤ w.draws + left) × ((is_free e k name w ≡ true) ⊎ (w'.draws ≡ w.draws + left))
  unfolding try_names is_free
  try_names-draws zero attempt base w = (omega arith, inr (omega arith))
  try_names-draws (suc left) attempt base w =
      let (few, last) = try_names-draws left (suc attempt) base (drawn k (suc attempt) w) in
      elim (Bool-cases (is_free e k (candidate k base (suc attempt) w.draws) w)) [
        | inl free ↦ rw free (omega arith, inl free)
        | inr taken ↦ rw taken (
          omega (arith, few),
          elim last [ inl free ↦ inl free | inr all ↦ inr (omega (arith, all)) ],
        )
      ]

  fifteen-draws :
      (base : Text) (w : World)
      → let (name, w') = try_names e k 15 0 base w in
        (w'.draws ≤ w.draws + 14) × ((is_free e k name w ≡ true) ⊎ (w'.draws ≡ w.draws + 14))
  unfolding try_names
  fifteen-draws base w = elim (Bool-cases (is_free e k (candidate k base 0 w.draws) w)) [
    | inl free ↦ rw free (omega arith, inl free)
    | inr taken ↦ rw taken (try_names-draws 14 0 base w)
  ]

  -- `generateUniqueUsername` always answers, with a name of at most 30 characters, all of them
  -- lower-case letters, digits or underscores, which no user has unless it is the fallback made of
  -- the time. Of at most fifteen attempts each but the first draws a number, so at most fourteen are
  -- drawn, and a name that somebody has is answered only after all fourteen.
  pub generate_unique_username-IsGenerated :
      (seed : Text) (w : World)
      → let (answer, w') = generate_unique_username e k seed w in
        (name : Text) × (answer ≡ ok name)
        × IsGenerated k e name w
        × (w'.draws ≤ w.draws + 14)
        × ((is_free e k name w ≡ true) ⊎ (w'.draws ≡ w.draws + 14))
  unfolding generate_unique_username
  generate_unique_username-IsGenerated seed w =
      let (few, last) = fifteen-draws (take 22 (to_username_base k seed)) w in
      (
        (try_names e k max_attempts 0 (take 22 (to_username_base k seed)) w).0,
        refl,
        try_names-IsGenerated max_attempts 0 (take 22 (to_username_base k seed)) w
            (take-IsName 22 (to_username_base k seed) (to_username_base-IsName k seed)),
        few,
        last,
      )

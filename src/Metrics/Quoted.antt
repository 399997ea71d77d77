-- ===== src/Metrics/Quoted.antt =====
-- A reader of the labels that common/observability/observability-metrics.service.ts prints.
use ubuy_backend.Base.{
  ℕ, ◌≡◌, refl, sym, ap, ◌∙◌, false, Option, none, some, [], ◌∷◌, ◌++◌, ◌==◌, if◌then◌else◌,
  Bool-cases, inl, inr, arith, ==_iff, ◌⊎◌, subst, count,
}
use ubuy_backend.Texts.{Text}
use ubuy_backend.Metrics.Normal.{Lacks}
use ubuy_backend.Metrics.Labels.{
  Labels, quote, backslash, replace_all, escape_label, label, labels_text,
}

-- A reader of the exposition format: the value up to the quote that closes it, and the rest.
consed : ℕ → Option (Text × Text) → Option (Text × Text)
consed x none = none
consed x (some (v, r)) = some (x ∷ v, r)

read_label : Text → Option (Text × Text)
read_label [] = none
read_label (x ∷ []) = if x == quote then some ([], []) else none
read_label (x ∷ y ∷ t) =
    let escaped = read_label t in
    let plain = read_label (y ∷ t) in
    if x == quote
    then some ([], y ∷ t)
    else if x == backslash
    then consed y escaped
    else consed x plain

read_label-plain :
    (x : ℕ) (s rest : Text)
    → (x == quote) ≡ false
    → (x == backslash) ≡ false
    → read_label (x ∷ (s ++ quote ∷ rest)) ≡ consed x (read_label (s ++ quote ∷ rest))
unfolding read_label
read_label-plain x [] rest n m = rw n (rw m refl)
read_label-plain x (y ∷ s) rest n m = rw n (rw m refl)

Escaped : ℕ → Text → Type 0
Escaped x v = escape_label (x ∷ v) ≡ backslash ∷ x ∷ escape_label v

escape_label-special : (v : Text) → Escaped backslash v × Escaped quote v
unfolding escape_label replace_all Escaped
escape_label-special v = (refl, refl)

escape_label-cons :
    (x : ℕ) (v : Text)
    → Escaped x v
      ⊎ ((escape_label (x ∷ v) ≡ x ∷ escape_label v)
          × ((x == quote) ≡ false)
          × ((x == backslash) ≡ false))
unfolding escape_label replace_all
escape_label-cons x v = elim (Bool-cases (x == backslash)) [
  | inl y ↦
      inl (subst (λ z. Escaped z v) (sym ((==_iff x backslash).0 y)) (escape_label-special v).0)
  | inr n ↦ elim (Bool-cases (x == quote)) [
    | inl y ↦ inl (subst (λ z. Escaped z v) (sym ((==_iff x quote).0 y)) (escape_label-special v).1)
    | inr m ↦ inr (rw n (rw m refl), m, n)
  ]
]

-- The value is read back from between its quotes.
read_label-escape_label :
    (v rest : Text) → read_label (escape_label v ++ quote ∷ rest) ≡ some (v, rest)
unfolding read_label escape_label Escaped consed
read_label-escape_label [] [] = refl
read_label-escape_label [] (y ∷ rest) = refl
read_label-escape_label (x ∷ v) rest = elim (escape_label-cons x v) [
  | inl e ↦ rw e (rw (read_label-escape_label v rest) refl)
  | inr (e, n, m) ↦ rw e (
      read_label-plain x (escape_label v) rest n m ∙ ap (consed x) (read_label-escape_label v rest))
]

-- The text after the first quote.
after_quote : Text → Text
after_quote [] = []
after_quote (x ∷ t) = let rest = after_quote t in if x == quote then t else rest

after_quote-Lacks : (n t : Text) → Lacks quote n → after_quote (n ++ 61 ∷ quote ∷ t) ≡ t
unfolding after_quote
after_quote-Lacks [] t h = refl
after_quote-Lacks (x ∷ n) t h = rw h.0 (after_quote-Lacks n t h.1)

-- The next value that stands between quotes, and the text after it.
pub next_label : Text → Option (Text × Text)
next_label t = read_label (after_quote t)

next_label-label :
    (c : ℕ) (n v rest : Text)
    → Lacks quote (c ∷ n)
    → next_label (c ∷ label n v rest) ≡ some (v, rest)
unfolding next_label label
next_label-label c n v rest h =
    ap read_label (after_quote-Lacks (c ∷ n) (escape_label v ++ quote ∷ rest) h)
    ∙ read_label-escape_label v rest

infixl 5 ◌>>=◌
abbrev ◌>>=◌ : {A B : Type 0} → Option A → (A → Option B) → Option B
none >>= f = none
some a >>= f = f a

-- Three values one after the other, as a reader of the metrics finds them.
pub read_labels : Text → Option Labels
read_labels t = do
  (a, t₁) ← next_label t
  (b, t₂) ← next_label t₁
  (c, t₃) ← next_label t₂
  some (record { first_label = a; second_label = b; third_label = c })

pub count-Lacks : (c : ℕ) (t : Text) → count (λ x. x == c) t ≡ 0 → Lacks c t
count-Lacks c [] e = tt
count-Lacks c (x ∷ t) e = (ground arith, count-Lacks c t (omega arith))

-- A name in front of the labels.
next_label-name :
    (name : Text) (c : ℕ) (n v rest : Text)
    → Lacks quote name
    → Lacks quote (c ∷ n)
    → next_label (name ++ c ∷ label n v rest) ≡ some (v, rest)
unfolding next_label after_quote
next_label-name [] c n v rest h k = next_label-label c n v rest k
next_label-name (x ∷ name) c n v rest h k = rw h.0 (next_label-name name c n v rest h.1 k)

-- A reader finds the labels that were printed behind a name.
pub read_labels-labels_text :
    (name n₁ n₂ n₃ rest : Text) (l : Labels)
    → Lacks quote name
    → Lacks quote n₁
    → Lacks quote n₂
    → Lacks quote n₃
    → read_labels (name ++ labels_text n₁ n₂ n₃ l rest) ≡ some l
unfolding read_labels labels_text
read_labels-labels_text name n₁ n₂ n₃ rest l h h₁ h₂ h₃ =
    let t₃ = 125 ∷ rest in
    let t₂ = 44 ∷ label n₃ l.third_label t₃ in
    let t₁ = 44 ∷ label n₂ l.second_label t₂ in
    rw (next_label-name name 123 n₁ l.first_label t₁ h (refl, h₁)) (
      rw (next_label-label 44 n₂ l.second_label t₂ (refl, h₂))
        (rw (next_label-label 44 n₃ l.third_label t₃ (refl, h₃)) refl))

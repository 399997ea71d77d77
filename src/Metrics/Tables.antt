-- ===== src/Metrics/Tables.antt =====
-- The maps of common/observability/observability-metrics.service.ts, whose keys are strings: a list
-- of pairs in the order in which the keys were added.
use ubuy_backend.Base.{
  ◌≡◌, ◌⊎◌, refl, sym, ap, false, ◌++◌, is_some, Option, none, some, List, [], ◌∷◌, if◌then◌else◌,
  Bool-cases, inl, inr, arith,
}
use ubuy_backend.Texts.{Text, same_text, same_text_iff, same_text_self}

abbrev pub Table {ℓ} : Type ℓ → Type ℓ
Table V = List (Text × V)

module _ {ℓ} {V : Type ℓ} where
  unfoldable pub get : Text → Table V → Option V
  get k [] = none
  get k ((j, v) ∷ t) = if same_text j k then some v else get k t

  -- A key that is there keeps its place.
  unfoldable pub set : Text → V → Table V → Table V
  set k v [] = (k, v) ∷ []
  set k v ((j, u) ∷ t) = let rest = set k v t in if same_text j k then (j, v) ∷ t else (j, u) ∷ rest

  unfoldable pub table_keys : Table V → List Text
  table_keys [] = []
  table_keys ((k, v) ∷ t) = k ∷ table_keys t

-- Two texts are one, or the test tells them apart in both orders.
pub Text-cases : (s t : Text) → (s ≡ t) ⊎ ((same_text s t ≡ false) × (same_text t s ≡ false))
Text-cases s t = elim (Bool-cases (same_text s t)) [
  | inl y ↦ inl ((same_text_iff s t).0 y)
  | inr n ↦ elim (Bool-cases (same_text t s)) [
    | inl y ↦ inl (sym ((same_text_iff t s).0 y))
    | inr m ↦ inr (n, m)
  ]
]

module _ {ℓ} {V : Type ℓ} where
  pub get-set_self : (k : Text) (v : V) (t : Table V) → get k (set k v t) ≡ some v
  unfolding get set
  get-set_self k v [] = rw (same_text_self k) refl
  get-set_self k v ((i, u) ∷ t) = ground (arith, get-set_self k v t)

  pub get-set_other :
      (j k : Text) (v : V) (t : Table V) → same_text k j ≡ false → get j (set k v t) ≡ get j t
  unfolding get set
  get-set_other j k v [] n = rw n refl
  get-set_other j k v ((i, u) ∷ t) n = elim (Text-cases i k) [
    | inl e ↦ rw e (rw (same_text_self k) (rw n refl))
    | inr m ↦ rw m.0 (ap (λ r. if same_text i j then some u else r) (get-set_other j k v t n))
  ]

  pub table_keys-set :
      (k : Text) (v : V) (t : Table V)
      → table_keys (set k v t)
        ≡ (if is_some (get k t) then table_keys t else table_keys t ++ k ∷ [])
  unfolding get set table_keys
  table_keys-set k v [] = refl
  table_keys-set k v ((i, u) ∷ t) = elim (Bool-cases (same_text i k)) [
    | inl y ↦ rw y refl
    | inr n ↦ rw n (
        rw (table_keys-set k v t)
          (elim (Bool-cases (is_some (get k t))) [ inl y ↦ rw y refl | inr m ↦ rw m refl ]))
  ]

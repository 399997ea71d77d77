-- ===== src/Metrics/Keys.antt =====
-- The parts of a counter's key that `getPrometheusMetrics` of
-- common/observability/observability-metrics.service.ts reads back with `split('|')`.
use ubuy_backend.Base.{
  append_assoc, ℕ, zero, suc, ◌+◌, ◌/◌, ◌%◌, ltb, ◌≡◌, ap, ◌∙◌, false, List, [], ◌∷◌, ◌++◌, ◌==◌,
  get_or_else, Bool-cases, inl, inr, arith,
}
use ubuy_backend.Texts.{Text, split, head, second}
use ubuy_backend.Auth.Codes.{decimal, decimal_upto}
use ubuy_backend.Metrics.Normal.{All-append, Lacks, split-part, split-Lacks}
use ubuy_backend.Metrics.{bar, build_key, to_upper_case}
use ubuy_backend.Metrics.Labels.{third, labels_of}

decimal_upto-Lacks : (fuel n : ℕ) → Lacks bar (decimal_upto fuel n)
decimal_upto-Lacks zero n = (ground arith, tt)
decimal_upto-Lacks (suc fuel) n = elim (Bool-cases (ltb n 10)) [
  | inl y ↦ rw y (ground arith, tt)
  | inr m ↦ rw m (
      All-append (λ x. (x == bar) ≡ false) (decimal_upto fuel (n / 10)) ((48 + n % 10) ∷ [])
        (decimal_upto-Lacks fuel (n / 10)) (ground arith, tt))
]

decimal-Lacks : (n : ℕ) → Lacks bar (decimal n)
unfolding decimal
decimal-Lacks n = decimal_upto-Lacks 19 n

to_upper_case-Lacks : (m : Text) → Lacks bar m → Lacks bar (to_upper_case m)
unfolding to_upper_case
to_upper_case-Lacks [] h = tt
to_upper_case-Lacks (x ∷ m) h = (ground (arith, h.0), to_upper_case-Lacks m h.1)

-- The three parts of a key.
split-key :
    (u a c : Text)
    → Lacks bar u
    → Lacks bar a
    → Lacks bar c
    → split bar (u ++ bar ∷ (a ++ bar ∷ c)) ≡ u ∷ a ∷ c ∷ []
split-key u a c h k l =
    split-part bar u (a ++ bar ∷ c) h
    ∙ ap (λ r. u ∷ r) (split-part bar a c k ∙ ap (λ r. a ∷ r) (split-Lacks bar c l))

-- The four parts of a key whose route has a bar.
split-key_of_four :
    (u a b c : Text)
    → Lacks bar u
    → Lacks bar a
    → Lacks bar b
    → Lacks bar c
    → split bar (u ++ bar ∷ ((a ++ bar ∷ b) ++ bar ∷ c)) ≡ u ∷ a ∷ b ∷ c ∷ []
split-key_of_four u a b c h k l d =
    ap (λ r. split bar (u ++ bar ∷ r)) (append_assoc a (bar ∷ b) (bar ∷ c))
    ∙ split-part bar u (a ++ bar ∷ (b ++ bar ∷ c)) h
    ∙ ap (λ r. u ∷ r)
        (split-part bar a (b ++ bar ∷ c) k
          ∙ ap (λ r. a ∷ r) (split-part bar b c l ∙ ap (λ r. b ∷ r) (split-Lacks bar c d)))

labels_of-parts :
    (key u a c : Text) (rest : List Text)
    → split bar key ≡ u ∷ a ∷ c ∷ rest
    → labels_of key ≡ record { first_label = u; second_label = a; third_label = c }
unfolding labels_of
labels_of-parts key u a c rest e =
    ap
      (λ parts. record {
        first_label = head parts;
        second_label = get_or_else (second parts) [];
        third_label = get_or_else (third parts) [];
      })
      e

-- The labels of a key come back apart if the route has no bar.
pub labels_of-build_key :
    (method route : Text) (status : ℕ)
    → Lacks bar method
    → Lacks bar route
    → labels_of (build_key method route status) ≡ record {
      first_label = to_upper_case method;
      second_label = route;
      third_label = decimal status;
    }
unfolding build_key
labels_of-build_key method route status h k =
    labels_of-parts (build_key method route status) (to_upper_case method) route (decimal status) []
      (split-key (to_upper_case method) route (decimal status) (to_upper_case-Lacks method h) k
        (decimal-Lacks status))

pub labels_of-build_key-bar :
    (method a b : Text) (status : ℕ)
    → Lacks bar method
    → Lacks bar a
    → Lacks bar b
    → labels_of (build_key method (a ++ bar ∷ b) status)
      ≡ record { first_label = to_upper_case method; second_label = a; third_label = b }
unfolding build_key
labels_of-build_key-bar method a b status h k l =
    labels_of-parts (build_key method (a ++ bar ∷ b) status) (to_upper_case method) a b
      (decimal status ∷ [])
      (split-key_of_four (to_upper_case method) a b (decimal status) (to_upper_case-Lacks method h)
        k l (decimal-Lacks status))

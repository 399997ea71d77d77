-- ===== src/Metrics/Normal.antt =====
-- What `normalizeRoute` of common/observability/observability-metrics.service.ts leaves in a route.
use ubuy_backend.Base.{
  ℕ, ◌≡◌, refl, sym, ap, ◌∙◌, Bool, false, ◌||◌, List, [], ◌∷◌, ◌++◌, ◌==◌, map, arith, All,
  Bool-cases, inl, inr, eq_self, subst, ◌⊎◌,
}
use ubuy_backend.Texts.{Text, split, head, grow}
use ubuy_backend.Payments.LinkId.{is_object_id, all_hex}
use ubuy_backend.Metrics.Routes.{
  slash, question_mark, id_segment, is_number, is_uuid, normalized_segment, normalize_route,
  join_with, all_digits, matches,
}

-- The text does not have the character.
abbrev pub Lacks : ℕ → Text → Type 0
Lacks c = All (λ x. (x == c) ≡ false)

abbrev IsNonEmpty : List Text → Type 0
IsNonEmpty parts = (p : Text) × (ps : List Text) × (parts ≡ p ∷ ps)

module _ (P : ℕ → Type 0) where
  All-grow : (x : ℕ) (parts : List Text) → P x → All (All P) parts → All (All P) (grow x parts)
  All-grow x [] h k = ((h, tt), tt)
  All-grow x (p ∷ ps) h k = ((h, k.0), k.1)

  -- The parts have only characters of the text.
  All-split : (c : ℕ) (t : Text) → All P t → All (All P) (split c t)
  unfolding split
  All-split c [] h = (tt, tt)
  All-split c (x ∷ t) h = elim (Bool-cases (x == c)) [
    | inl y ↦ rw y (tt, All-split c t h.1)
    | inr n ↦ rw n (All-grow x (split c t) h.0 (All-split c t h.1))
  ]

  pub All-append : (s t : Text) → All P s → All P t → All P (s ++ t)
  All-append [] t h k = k
  All-append (x ∷ s) t h k = (h.0, All-append s t h.1 k)

  All-join_with : (c : ℕ) (parts : List Text) → P c → All (All P) parts → All P (join_with c parts)
  unfolding join_with
  All-join_with c [] h k = tt
  All-join_with c (p ∷ []) h k = k.0
  All-join_with c (p ∷ q ∷ ps) h k =
      All-append p (c ∷ join_with c (q ∷ ps)) k.0 (h, All-join_with c (q ∷ ps) h k.1)

  All-head : (parts : List Text) → All (All P) parts → All P (head parts)
  All-head [] k = tt
  All-head (p ∷ ps) k = k.0

Lacks-split : (c : ℕ) (t : Text) → All (Lacks c) (split c t)
unfolding split
Lacks-split c [] = (tt, tt)
Lacks-split c (x ∷ t) = elim (Bool-cases (x == c)) [
  | inl y ↦ rw y (tt, Lacks-split c t)
  | inr n ↦ rw n (All-grow (λ x. (x == c) ≡ false) x (split c t) n (Lacks-split c t))
]

IsNonEmpty-grow : (x : ℕ) (parts : List Text) → IsNonEmpty (grow x parts)
IsNonEmpty-grow x [] = (x ∷ [], [], refl)
IsNonEmpty-grow x (p ∷ ps) = (x ∷ p, ps, refl)

IsNonEmpty-split : (c : ℕ) (t : Text) → IsNonEmpty (split c t)
unfolding split
IsNonEmpty-split c [] = ([], [], refl)
IsNonEmpty-split c (x ∷ t) = elim (Bool-cases (x == c)) [
  | inl y ↦ rw y ([], split c t, refl)
  | inr n ↦ rw n (IsNonEmpty-grow x (split c t))
]

-- A text without the separator is one part, also in front of a separator.
pub split-Lacks : (c : ℕ) (t : Text) → Lacks c t → split c t ≡ t ∷ []
unfolding split
split-Lacks c [] h = refl
split-Lacks c (x ∷ t) h = rw h.0 (rw (split-Lacks c t h.1) refl)

pub split-part : (c : ℕ) (p t : Text) → Lacks c p → split c (p ++ c ∷ t) ≡ p ∷ split c t
unfolding split
split-part c [] t h = rw (eq_self c) refl
split-part c (x ∷ p) t h = rw h.0 (rw (split-part c p t h.1) refl)

split-join_with :
    (c : ℕ) (p : Text) (ps : List Text)
    → All (Lacks c) (p ∷ ps)
    → split c (join_with c (p ∷ ps)) ≡ p ∷ ps
unfolding join_with
split-join_with c p [] h = split-Lacks c p h.0
split-join_with c p (q ∷ ps) h =
    split-part c p (join_with c (q ∷ ps)) h.0 ∙ ap (λ r. p ∷ r) (split-join_with c q ps h.1)

-- The segment is a number, an object id or a UUID.
abbrev pub is_id : Text → Bool
is_id s = is_number s || is_object_id s || is_uuid s

is_id-nil : is_id [] ≡ false
unfolding is_number is_object_id is_uuid all_hex matches
is_id-nil = refl

normalized_segment-cases :
    (s : Text)
    → (normalized_segment s ≡ id_segment) ⊎ ((normalized_segment s ≡ s) × (is_id s ≡ false))
unfolding normalized_segment
normalized_segment-cases [] = inr (refl, is_id-nil)
normalized_segment-cases (x ∷ s) = ground arith

id_segment_stays : (normalized_segment id_segment ≡ id_segment) × (is_id id_segment ≡ false)
unfolding normalized_segment is_number is_object_id is_uuid all_hex matches all_digits
id_segment_stays = (refl, refl)

-- What a segment is after the replacement, for each segment of a route.
Settled : Text → Type 0
Settled s = (normalized_segment s ≡ s) × (is_id s ≡ false) × Lacks slash s × Lacks question_mark s

normalized_segment-Settled :
    (s : Text) → Lacks slash s → Lacks question_mark s → Settled (normalized_segment s)
unfolding Settled
normalized_segment-Settled s h k = elim (normalized_segment-cases s) [
  | inl e ↦ subst Settled (sym e) (
    id_segment_stays.0,
    id_segment_stays.1,
    (refl, (refl, (refl, tt))),
    (refl, (refl, (refl, tt))),
  )
  | inr (e, n) ↦ subst Settled (sym e) (e, n, h, k)
]

Settled-map :
    (parts : List Text)
    → All (Lacks slash) parts
    → All (Lacks question_mark) parts
    → All Settled (map normalized_segment parts)
Settled-map [] h k = tt
Settled-map (p ∷ ps) h k = (normalized_segment-Settled p h.0 k.0, Settled-map ps h.1 k.1)

-- A property of settled segments, for all of them.
All-Settled {κ} :
    (P : Text → Type κ) (parts : List Text)
    → ((s : Text) → Settled s → P s)
    → All Settled parts
    → All P parts
All-Settled P [] f h = tt
All-Settled P (p ∷ ps) f h = (f p h.0, All-Settled P ps f h.1)

map-Settled : (parts : List Text) → All Settled parts → map normalized_segment parts ≡ parts
unfolding Settled
map-Settled [] h = refl
map-Settled (p ∷ ps) h = rw h.0.0 (rw (map-Settled ps h.1) refl)

-- The route of segments that are settled.
normalize_route-join_with :
    (p : Text) (ps : List Text)
    → All Settled (p ∷ ps)
    → (normalize_route (join_with slash (p ∷ ps)) ≡ join_with slash (p ∷ ps))
      × All (λ s. is_id s ≡ false) (split slash (join_with slash (p ∷ ps)))
unfolding normalize_route Settled
normalize_route-join_with p ps h =
    let parts = p ∷ ps in
    let slashes = All-Settled (Lacks slash) parts (λ s k. k.2) h in
    let marks =
      All-join_with (λ x. (x == question_mark) ≡ false) slash parts refl
        (All-Settled (Lacks question_mark) parts (λ s k. k.3) h) in
    let back = split-join_with slash p ps slashes in
    (
      ap (λ l. join_with slash (map normalized_segment (split slash (head l))))
            (split-Lacks question_mark (join_with slash parts) marks)
          ∙ ap (λ l. join_with slash (map normalized_segment l)) back
          ∙ ap (join_with slash) (map-Settled parts h),
      subst (All (λ s. is_id s ≡ false)) (sym back)
          (All-Settled (λ s. is_id s ≡ false) parts (λ s k. k.1) h),
    )

-- A route that has been normalised stays as it is when it is normalised again, and none of its
-- segments is a number, an object id or a UUID.
pub normalize_route_twice :
    (path : Text)
    → (normalize_route (normalize_route path) ≡ normalize_route path)
      × All (λ s. is_id s ≡ false) (split slash (normalize_route path))
unfolding normalize_route
normalize_route_twice path =
    let route = head (split question_mark path) in
    let marks =
      All-head (λ x. (x == question_mark) ≡ false) (split question_mark path)
        (Lacks-split question_mark path) in
    let (p, ps, e) = IsNonEmpty-split slash route in
    subst
      (λ parts.
        let r = join_with slash (map normalized_segment parts) in
        (normalize_route r ≡ r) × All (λ s. is_id s ≡ false) (split slash r))
      (sym e)
      (normalize_route-join_with (normalized_segment p) (map normalized_segment ps) (
        Settled-map (p ∷ ps) (subst (All (Lacks slash)) e (Lacks-split slash route)) (
          subst (All (Lacks question_mark)) e
            (All-split (λ x. (x == question_mark) ≡ false) slash route marks))))

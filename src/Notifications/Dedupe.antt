-- ===== src/Notifications/Dedupe.antt =====
-- Writing a notification twice under one key keeps one document.
use ubuy_backend.Base.{
  ℕ, ◌+◌, ◌≡◌, refl, ◌∙◌, Bool, true, false, none, some, inl, inr, ap, Bool-cases, List, [], ◌∷◌,
  ◌++◌, arith, first, count, Option-cases,
}
use ubuy_backend.Domain.{DedupeKey, Notification}
use ubuy_backend.Domain.Equality.{same_key_iff}
use ubuy_backend.Platform.{Env, upsert_into}
use ubuy_backend.Platform.World.{World, Result, ok, err, unavailable, after}
use ubuy_backend.Platform.Calls.{guarded}
use ubuy_backend.Notifications.{Input, fresh, has_key, store, create_notification}

fresh-has_key :
    (id now : ℕ) (input : Input) (k : DedupeKey)
    → input.dedupe_key ≡ some k
    → has_key input.user_id k (fresh id now input) ≡ true
fresh-has_key id now input k h = ground (arith, same_key_iff input.dedupe_key k)

first-snoc_self :
    (p : Notification → Bool) (d : Notification) (c : List Notification)
    → first p c ≡ none
    → p d ≡ true
    → first p (c ++ d ∷ []) ≡ some d
first-snoc_self p d [] h t = rw t
first-snoc_self p d (x ∷ c) h t = ground (arith, first-snoc_self p d c)

count-snoc :
    (p : Notification → Bool) (d : Notification) (c : List Notification)
    → count p (c ++ d ∷ []) ≡ count p c + count p (d ∷ [])
count-snoc p d [] = omega arith
count-snoc p d (x ∷ c) = omega (arith, count-snoc p d c)

first-none-count :
    (p : Notification → Bool) (c : List Notification) → first p c ≡ none → count p c ≡ 0
first-none-count p [] h = refl
first-none-count p (x ∷ c) h = ground (arith, first-none-count p c)

upsert-found :
    (p : Notification → Bool) (d : Notification) (c : List Notification)
    → p d ≡ true
    → first p (upsert_into d c (first p c)).1 ≡ some (upsert_into d c (first p c)).0
upsert-found p d c t = elim (Option-cases (first p c)) [
  | inl new ↦ rw new (first-snoc_self p d c new t)
  | inr (m, there) ↦ rw there there
]

module _ (e : Env) where
  create-down :
      (input : Input) (w : World)
      → e.outage w.calls ≡ true
      → (create_notification e input w).0 ≡ err unavailable
  unfolding create_notification
  create-down input w down = ground arith

  guarded_up :
      (w : World)
      → e.outage w.calls ≡ false
      → guarded e w ≡ (ok tt, record w { calls = w.calls + 1 })
  unfolding guarded
  guarded_up w up = rw up

  -- A call that went through has written.
  create-run :
      (input : Input) (k : DedupeKey) (w : World) {n : Notification}
      → input.dedupe_key ≡ some k
      → (create_notification e input w).0 ≡ ok n
      → create_notification e input w ≡ store e input (some k) (record w { calls = w.calls + 1 })
  unfolding create_notification
  create-run input k w h okay = elim (Bool-cases (e.outage w.calls)) [
    | inl down ↦ cc (create-down input w down)
    | inr up ↦
        after (guarded e) (λ _. store e input input.dedupe_key) w (guarded_up w up)
        ∙ ap (λ o. store e input o (record w { calls = w.calls + 1 })) h
  ]

  -- What `findOneAndUpdate` with `upsert` answers and leaves.
  store-result :
      (input : Input) (k : DedupeKey) (w : World)
      → ((store e input (some k) w).0
          ≡ ok
              (upsert_into
                (fresh (e.new_id w.issued) w.now input)
                w.notifications
                (first (has_key input.user_id k) w.notifications)).0)
        × ((store e input (some k) w).1.notifications
            ≡ (upsert_into
                (fresh (e.new_id w.issued) w.now input)
                w.notifications
                (first (has_key input.user_id k) w.notifications)).1)
  unfolding store
  store-result input k w =
      let law =
        e.notifications.upsert_lem (has_key input.user_id k) (fresh (e.new_id w.issued) w.now input)
          w.notifications in
      (
        ap (λ (r : Notification × List Notification). ok r.0) law,
        ap (λ (r : Notification × List Notification). r.1) law,
      )

  -- After a write under a key, the notification that was answered is the user's first under that key.
  create-first :
      (input : Input) (k : DedupeKey) (w : World) {n : Notification}
      → input.dedupe_key ≡ some k
      → (create_notification e input w).0 ≡ ok n
      → first (has_key input.user_id k) (create_notification e input w).1.notifications ≡ some n
  create-first input k w h okay =
      let run = create-run input k w h okay in
      let (answer, left) = store-result input k (record w { calls = w.calls + 1 }) in
      let same = rw (run, answer) at okay in
      rw (run, left)
        (upsert-found (has_key input.user_id k) _ w.notifications
            (fresh-has_key (e.new_id w.issued) w.now input k h)
          ∙ cc same)

  -- When two notifications are created for one user under the same key, one after the other, and
  -- both calls answer, the second answers the notification that the first did and leaves the
  -- collection as it is, whatever its other fields and the time.
  pub create_notification-dedupe :
      (input again : Input) (k : DedupeKey) (w : World) (t : ℕ) (n m : Notification)
      → input.dedupe_key ≡ some k
      → again.dedupe_key ≡ some k
      → again.user_id ≡ input.user_id
      → (create_notification e input w).0 ≡ ok n
      → let w' = record (create_notification e input w).1 { now = t } in
        (create_notification e again w').0 ≡ ok m
        → (m ≡ n) × ((create_notification e again w').1.notifications ≡ w'.notifications)
  create_notification-dedupe input again k w t n m h h' same okay okay' =
      let w' = record (create_notification e input w).1 { now = t } in
      let run = create-run again k w' h' okay' in
      let (answer, left) = store-result again k (record w' { calls = w'.calls + 1 }) in
      let found = found_under (create-first input k w h okay) in
      (
        cc (ap (λ (r : Result Notification × World). r.0) run, answer, upserted found),
        ap (λ (r : Result Notification × World). r.1.notifications) run
            ∙ left
            ∙ ap (λ (r : Notification × List Notification). r.1) (upserted found),
      )
    where
      w₁ : World
      w₁ = record (create_notification e input w).1 { now = t }

      found_under :
          first (has_key input.user_id k) w₁.notifications ≡ some n
          → first (has_key again.user_id k) w₁.notifications ≡ some n
      found_under f = rw same f

      upserted :
          first (has_key again.user_id k) w₁.notifications ≡ some n
          → upsert_into
              (fresh (e.new_id w₁.issued) w₁.now again)
              w₁.notifications
              (first (has_key again.user_id k) w₁.notifications)
            ≡ (n, w₁.notifications)
      upserted f = rw f

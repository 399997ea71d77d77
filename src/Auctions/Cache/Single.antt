-- ===== src/Auctions/Cache/Single.antt =====
-- modules/auctions/auctions.service.ts: the fetches of the caches that run at a time.
use ubuy_backend.Base.{
  ℕ, ◌+◌, ◌≡◌, ◌<◌, refl, ◌∙◌, sym, ap, true, false, Option, none, some, List, [], ◌∷◌, ◌==◌, arith,
  Bool-cases, inl, inr, some_inj, ==_iff,
}
use ubuy_backend.Texts.{Text, same_text, same_text_iff, same_text_self}
use ubuy_backend.Auctions.Cache.{
  Ticket, Cache, hit, waits, Event, asks, resolves, rejects, pending_of, fresh_value, start,
  answer_from, ask, key_of, without, store_value, is_ticket, drop_entry, step, run,
}

key_of-without :
    (t u : Ticket) (xs : List (Ticket × Text)) (key : Text)
    → key_of u (without t xs) ≡ some key
    → (key_of u xs ≡ some key) × ((t == u) ≡ false)
key_of-without t u [] key h = absurd (cc)
key_of-without t u ((i, k) ∷ xs) key h = elim (Bool-cases (t == i)) [
  | inl gone ↦
      let (found, other) = key_of-without t u xs key (rw gone at h) in
      (ground (arith, found, other, gone), other)
  | inr kept ↦ elim (Bool-cases (u == i)) [
    | inl this ↦ (ground (arith, this, kept, h), ground (arith, this, kept))
    | inr other ↦
        let (found, away) = key_of-without t u xs key (ground (arith, kept, other, h)) in
        (rw other found, away)
  ]
]

module _ {V : Type 0} where
  -- A fetch that is running is the pending one of its key.
  pub record IsSingle (c : Cache V) : Type 0 where
    pub pending :
        (t : Ticket) (key : Text)
        → key_of t c.running ≡ some key
        → pending_of (c.entry key) ≡ some t
    pub old : (t : Ticket) (key : Text) → key_of t c.running ≡ some key → t < c.started

  one_key :
      (c : Cache V) (t u : Ticket) (key k : Text)
      → IsSingle c
      → key_of t c.running ≡ some key
      → key_of u c.running ≡ some k
      → same_text key k ≡ true
      → t ≡ u
  one_key c t u key k h a b same = some_inj (
      sym (h.pending t key a)
      ∙ ap (λ x. pending_of (c.entry x)) ((same_text_iff key k).0 same)
      ∙ h.pending u k b)

  start-IsSingle :
      (key : Text) (c : Cache V)
      → pending_of (c.entry key) ≡ none
      → IsSingle c
      → IsSingle (start key c)
  start-IsSingle key c free h = record {
    pending = λ t k found. elim (Bool-cases (t == c.started)) [
      | inl new ↦
          rw ((same_text_iff key k).1 (some_inj (rw new at found)))
            (ap some (sym ((==_iff t c.started).0 new)))
      | inr running ↦ elim (Bool-cases (same_text key k)) [
        | inl same ↦ absurd (taken t k (rw running at found) same)
        | inr other ↦ rw other (h.pending t k (rw running at found))
      ]
    ];
    old = λ t k found. elim (Bool-cases (t == c.started)) [
      | inl new ↦ ground (arith, new)
      | inr running ↦ omega (arith, h.old t k (rw running at found))
    ];
  }
    where
      taken : (t : Ticket) (k : Text) → key_of t c.running ≡ some k → same_text key k ≡ true → ⊥
      taken t k found same = cc (
        h.pending t k found,
        free,
        ap (λ x. pending_of (c.entry x)) ((same_text_iff key k).0 same),
      )

  store_value-IsSingle :
      (ttl : ℕ) (t : Ticket) (v : V) (now : ℕ) (o : Option Text) (c : Cache V)
      → key_of t c.running ≡ o
      → IsSingle c
      → IsSingle (store_value ttl t v now o c)
  store_value-IsSingle ttl t v now none c found h = h
  store_value-IsSingle ttl t v now (some key) c found h = record {
    pending = λ u k there.
        let (running, away) = key_of-without t u c.running k there in
        elim (Bool-cases (same_text key k)) [
          | inl same ↦ absurd (ground (arith, one_key c t u key k h found running same, away))
          | inr other ↦ rw other (h.pending u k running)
        ];
    old = λ u k there. h.old u k (key_of-without t u c.running k there).0;
  }

  drop_entry-IsSingle :
      (t : Ticket) (o : Option Text) (c : Cache V)
      → key_of t c.running ≡ o
      → IsSingle c
      → IsSingle (drop_entry t o c)
  drop_entry-IsSingle t none c found h = h
  drop_entry-IsSingle t (some key) c found h = record {
    pending = λ u k there.
        let (running, away) = key_of-without t u c.running k there in
        elim (Bool-cases (is_ticket (pending_of (c.entry key)) t)) [
          | inr later ↦ rw later (h.pending u k running)
          | inl this ↦ elim (Bool-cases (same_text key k)) [
            | inl same ↦ absurd (ground (arith, one_key c t u key k h found running same, away))
            | inr other ↦ rw (this, other) (h.pending u k running)
          ]
        ];
    old = λ u k there. h.old u k (key_of-without t u c.running k there).0;
  }

  answer_from-IsSingle :
      (o : Option Ticket) (v : Option V) (key : Text) (c : Cache V)
      → pending_of (c.entry key) ≡ o
      → IsSingle c
      → IsSingle (answer_from o v key c).1
  answer_from-IsSingle (some t) v key c there h = h
  answer_from-IsSingle none (some v) key c there h = h
  answer_from-IsSingle none none key c there h = start-IsSingle key c there h

  step-IsSingle : (ttl : ℕ) (x : Event V) (c : Cache V) → IsSingle c → IsSingle (step ttl x c)
  unfolding step ask
  step-IsSingle ttl (asks key now) c h =
      answer_from-IsSingle (pending_of (c.entry key)) (fresh_value (c.entry key) now) key c refl h
  step-IsSingle ttl (resolves t v now) c h =
      store_value-IsSingle ttl t v now (key_of t c.running) c refl h
  step-IsSingle ttl (rejects t) c h = drop_entry-IsSingle t (key_of t c.running) c refl h

  run-IsSingle : (ttl : ℕ) (xs : List (Event V)) → IsSingle (run ttl xs)
  unfolding run
  run-IsSingle ttl [] = record { pending = λ t key h. absurd (cc); old = λ t key h. absurd (cc) }
  run-IsSingle ttl (x ∷ xs) = step-IsSingle ttl x (run ttl xs) (run-IsSingle ttl xs)

  -- After any calls and any settling of fetches: while a fetch for a key runs, a call at the key waits
  -- for it and starts none; and when it resolves, calls get its value until the time to live is over.
  pub ask-single :
      (ttl : ℕ) (xs : List (Event V)) (t : Ticket) (key : Text) (v : V) (now s later : ℕ)
      → key_of t (run ttl xs).running ≡ some key
      → later < s + ttl
      → (ask key now (run ttl xs) ≡ (waits t, run ttl xs))
        × ((ask key later (run ttl (resolves t v s ∷ xs))).0 ≡ hit v)
  unfolding ask run step
  ask-single ttl xs t key v now s later found soon = (
    rw ((run-IsSingle ttl xs).pending t key found) refl,
    rw (found, same_text_self key) (ground (arith, soon)),
  )

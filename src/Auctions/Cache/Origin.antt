-- ===== src/Auctions/Cache/Origin.antt =====
-- modules/auctions/auctions.service.ts: where the values that the caches serve come from.
use ubuy_backend.Base.{
  ℕ, ◌+◌, ◌≡◌, ◌<◌, refl, subst, Option, none, some, List, [], ◌∷◌, ltb, arith, Bool-cases, inl,
  inr, some_inj,
}
use ubuy_backend.Texts.{Text, same_text, same_text_iff}
use ubuy_backend.Auctions.Cache.{
  Ticket, Entry, Cache, hit, Event, asks, resolves, rejects, put, pending_of, value_of, expiry_of,
  fresh_value, answer_from, ask, key_of, store_value, is_ticket, drop_entry, step, run,
}

-- The key of a resolved fetch at the time: `v` was fetched for `key` and came at time `s`.
pub data WasFetched {V : Type 0} (ttl : ℕ) (key : Text) (v : V) (s : ℕ)
    : List (Event V) → Type 0 where
  now_ :
      {t : Ticket} {xs : List (Event V)}
      → key_of t (run ttl xs).running ≡ some key
      → WasFetched ttl key v s (resolves t v s ∷ xs)
  before :
      {x : Event V} {xs : List (Event V)}
      → WasFetched ttl key v s xs
      → WasFetched ttl key v s (x ∷ xs)

module _ {V : Type 0} where
  -- A value with the time at which it expires, as it came from a fetch.
  abbrev HasOrigin : ℕ → List (Event V) → Text → Option (Entry V) → Type 0
  HasOrigin ttl xs key x =
      (v : V) → value_of x ≡ some v → (s : ℕ) × WasFetched ttl key v s xs × (expiry_of x ≡ s + ttl)

  later_origin :
      (ttl : ℕ) (y : Event V) (xs : List (Event V)) (key : Text) (x : Option (Entry V))
      → HasOrigin ttl xs key x
      → HasOrigin ttl (y ∷ xs) key x
  later_origin ttl y xs key x h v k =
      let (s, fetched, expiry) = h v k in (s, before fetched, expiry)

  put-HasOrigin :
      (ttl : ℕ) (xs : List (Event V)) (key : Text) (x : Option (Entry V))
      (entries : Text → Option (Entry V))
      → HasOrigin ttl xs key x
      → ((k : Text) → HasOrigin ttl xs k (entries k))
      → (k : Text) → HasOrigin ttl xs k (put key x entries k)
  put-HasOrigin ttl xs key x entries h rest k = elim (Bool-cases (same_text key k)) [
    | inl same ↦ rw same (subst (λ t. HasOrigin ttl xs t x) ((same_text_iff key k).0 same) h)
    | inr other ↦ rw other (rest k)
  ]

  answer_from-HasOrigin :
      (ttl : ℕ) (xs : List (Event V)) (o : Option Ticket) (v : Option V) (key : Text) (c : Cache V)
      → ((k : Text) → HasOrigin ttl xs k (c.entry k))
      → (k : Text) → HasOrigin ttl xs k ((answer_from o v key c).1.entry k)
  answer_from-HasOrigin ttl xs (some t) v key c h k = h k
  answer_from-HasOrigin ttl xs none (some v) key c h k = h k
  answer_from-HasOrigin ttl xs none none key c h k =
      put-HasOrigin ttl xs key
        (some (record {
          value = value_of (c.entry key);
          expires_at = expiry_of (c.entry key);
          pending = some c.started;
        }))
        c.entry (h key) h k

  store_value-HasOrigin :
      (ttl : ℕ) (t : Ticket) (v : V) (now : ℕ) (xs : List (Event V)) (o : Option Text)
      → key_of t (run ttl xs).running ≡ o
      → ((k : Text) → HasOrigin ttl (resolves t v now ∷ xs) k ((run ttl xs).entry k))
      → (k : Text)
      → HasOrigin ttl (resolves t v now ∷ xs) k ((store_value ttl t v now o (run ttl xs)).entry k)
  store_value-HasOrigin ttl t v now xs none found h k = h k
  store_value-HasOrigin ttl t v now xs (some key) found h k =
      put-HasOrigin ttl (resolves t v now ∷ xs) key
        (some (record { value = some v; expires_at = now + ttl; pending = none }))
        (run ttl xs).entry
        (λ u same. (
          now,
          subst (λ z. WasFetched ttl key z now (resolves t v now ∷ xs)) (some_inj same)
              (now_ found),
          refl,
        ))
        h k

  drop_entry-HasOrigin :
      (ttl : ℕ) (t : Ticket) (xs : List (Event V)) (o : Option Text) (c : Cache V)
      → ((k : Text) → HasOrigin ttl xs k (c.entry k))
      → (k : Text) → HasOrigin ttl xs k ((drop_entry t o c).entry k)
  drop_entry-HasOrigin ttl t xs none c h k = h k
  drop_entry-HasOrigin ttl t xs (some key) c h k =
      elim (Bool-cases (is_ticket (pending_of (c.entry key)) t)) [
        | inl this ↦ rw this (put-HasOrigin ttl xs key none c.entry (λ v e. absurd (cc)) h k)
        | inr later ↦ rw later (h k)
      ]

  run-HasOrigin :
      (ttl : ℕ) (xs : List (Event V)) (key : Text) → HasOrigin ttl xs key ((run ttl xs).entry key)
  unfolding run step ask
  run-HasOrigin ttl [] key = λ v h. absurd (cc)
  run-HasOrigin ttl (asks k now ∷ xs) key =
      answer_from-HasOrigin ttl (asks k now ∷ xs) (pending_of ((run ttl xs).entry k))
        (fresh_value ((run ttl xs).entry k) now) k (run ttl xs)
        (λ j. later_origin ttl (asks k now) xs j ((run ttl xs).entry j) (run-HasOrigin ttl xs j))
        key
  run-HasOrigin ttl (resolves t v now ∷ xs) key =
      store_value-HasOrigin ttl t v now xs (key_of t (run ttl xs).running) refl
        (λ j.
          later_origin ttl (resolves t v now) xs j ((run ttl xs).entry j) (run-HasOrigin ttl xs j))
        key
  run-HasOrigin ttl (rejects t ∷ xs) key =
      drop_entry-HasOrigin ttl t (rejects t ∷ xs) (key_of t (run ttl xs).running) (run ttl xs)
        (λ j. later_origin ttl (rejects t) xs j ((run ttl xs).entry j) (run-HasOrigin ttl xs j)) key

  -- A value that a cache serves is one that was fetched for the same key less than the time to live
  -- before, whatever calls and fetches came in between and however they ended.
  pub hit-WasFetched :
      (ttl : ℕ) (xs : List (Event V)) (key : Text) (now : ℕ) (v : V)
      → (ask key now (run ttl xs)).0 ≡ hit v
      → (s : ℕ) × WasFetched ttl key v s xs × (now < s + ttl)
  unfolding ask
  hit-WasFetched ttl xs key now v h =
      let (there, soon) = fresh ((run ttl xs).entry key) (
        hit_value (pending_of ((run ttl xs).entry key)) (fresh_value ((run ttl xs).entry key) now)
          (run ttl xs) h) in
      let (s, fetched, expiry) = run-HasOrigin ttl xs key v there in (s, fetched, rw expiry at soon)
    where
      hit_value :
          (o : Option Ticket) (f : Option V) (c : Cache V)
          → (answer_from o f key c).0 ≡ hit v
          → f ≡ some v
      hit_value (some t) f c k = absurd (cc)
      hit_value none (some u) c k = cc
      hit_value none none c k = absurd (cc)

      fresh :
          (x : Option (Entry V))
          → fresh_value x now ≡ some v
          → (value_of x ≡ some v) × (now < expiry_of x)
      fresh x k = elim (Bool-cases (ltb now (expiry_of x))) [
        | inl soon ↦ (rw soon at k, ground arith)
        | inr late ↦ absurd (ground arith)
      ]

-- ===== src/Auctions/Cache.antt =====
-- modules/auctions/auctions.service.ts: `getCachedCount` and `getCachedListResponse`, which are the
-- same code at two types of values. A method that finds no value starts a fetch and goes on when the
-- fetch settles; between the two, other calls run. So the cache is a state machine, whose steps are
-- the calls and the settling of the fetches. A pending promise is a ticket.
pub mod Single
pub mod Origin
use ubuy_backend.Base.{
  ℕ, ◌+◌, Bool, true, false, ◌&&◌, Option, none, some, is_some, List, [], ◌∷◌, ◌==◌, ltb,
  if◌then◌else◌,
}
use ubuy_backend.Texts.{Text, same_text}

abbrev pub Ticket : Type 0
Ticket = ℕ

-- An entry of the `Map`.
pub record Entry (V : Type 0) : Type 0 where
  pub value : Option V
  pub expires_at : ℕ
  pub pending : Option Ticket

-- The `Map`, the fetches that have not settled with their keys, and the number of fetches so far.
pub record Cache (V : Type 0) : Type 0 where
  pub entry : Text → Option (Entry V)
  pub running : List (Ticket × Text)
  pub started : ℕ

-- What a call gets: the value, the promise of a fetch that is pending, or that of a new one.
pub data Answer (V : Type 0) : Type 0 where
  hit : V → Answer V
  waits starts : Ticket → Answer V

pub data Event (V : Type 0) : Type 0 where
  asks : (key : Text) (now : ℕ) → Event V
  resolves : Ticket → V → (now : ℕ) → Event V
  rejects : Ticket → Event V

-- The key of a fetch, and the fetches without it.
abbrev pub key_of : Ticket → List (Ticket × Text) → Option Text
key_of t [] = none
key_of t ((i, key) ∷ rest) = let found = key_of t rest in if t == i then some key else found

abbrev pub without : Ticket → List (Ticket × Text) → List (Ticket × Text)
without t [] = []
without t ((i, key) ∷ rest) =
    let others = without t rest in if t == i then others else (i, key) ∷ others

abbrev pub is_ticket : Option Ticket → Ticket → Bool
is_ticket none t = false
is_ticket (some i) t = i == t

module _ {V : Type 0} where
  abbrev pub empty : Cache V
  empty = record { entry = λ key. none; running = []; started = 0 }

  -- `cache.set(key, entry)`, and `cache.delete(key)` for `none`
  abbrev pub put : Text → Option (Entry V) → (Text → Option (Entry V)) → Text → Option (Entry V)
  put key x entries k = if same_text key k then x else entries k

  abbrev pub pending_of : Option (Entry V) → Option Ticket
  pending_of none = none
  pending_of (some x) = x.pending

  abbrev pub value_of : Option (Entry V) → Option V
  value_of none = none
  value_of (some x) = x.value

  -- `cachedEntry?.expiresAt ?? 0`
  abbrev pub expiry_of : Option (Entry V) → ℕ
  expiry_of none = 0
  expiry_of (some x) = x.expires_at

  -- `cachedEntry && cachedEntry.expiresAt > now && cachedEntry.value !== undefined`
  abbrev pub fresh_value : Option (Entry V) → ℕ → Option V
  fresh_value x now = if ltb now (expiry_of x) then value_of x else none

  -- `cache.set(key, { value: cachedEntry?.value, expiresAt: cachedEntry?.expiresAt ?? 0, pending })`
  abbrev pub start : Text → Cache V → Cache V
  start key c = record {
    entry =
        put key
          (some (record {
            value = value_of (c.entry key);
            expires_at = expiry_of (c.entry key);
            pending = some c.started;
          }))
          c.entry;
    running = (c.started, key) ∷ c.running;
    started = c.started + 1;
  }

  abbrev pub answer_from : Option Ticket → Option V → Text → Cache V → Answer V × Cache V
  answer_from (some t) v key c = (waits t, c)
  answer_from none (some v) key c = (hit v, c)
  answer_from none none key c = (starts c.started, start key c)

  -- The method up to the fetch.
  unfoldable pub ask : Text → ℕ → Cache V → Answer V × Cache V
  ask key now c = answer_from (pending_of (c.entry key)) (fresh_value (c.entry key) now) key c

  -- `.then(value => cache.set(key, { value, expiresAt: Date.now() + ttl }))`
  abbrev pub store_value : ℕ → Ticket → V → ℕ → Option Text → Cache V → Cache V
  store_value ttl t v now none c = c
  store_value ttl t v now (some key) c = record {
    entry =
        put key (some (record { value = some v; expires_at = now + ttl; pending = none })) c.entry;
    running = without t c.running;
    started = c.started;
  }

  -- `.catch(…)`: the entry goes if its promise is this one.
  abbrev pub drop_entry : Ticket → Option Text → Cache V → Cache V
  drop_entry t none c = c
  drop_entry t (some key) c = record {
    entry = if is_ticket (pending_of (c.entry key)) t then put key none c.entry else c.entry;
    running = without t c.running;
    started = c.started;
  }

  unfoldable pub step : ℕ → Event V → Cache V → Cache V
  unfolding ask
  step ttl (asks key now) c = (ask key now c).1
  step ttl (resolves t v now) c = store_value ttl t v now (key_of t c.running) c
  step ttl (rejects t) c = drop_entry t (key_of t c.running) c

  -- The events of a run, the latest first.
  unfoldable pub run : ℕ → List (Event V) → Cache V
  unfolding step
  run ttl [] = empty
  run ttl (x ∷ xs) = step ttl x (run ttl xs)

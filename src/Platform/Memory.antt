-- ===== src/Platform/Memory.antt =====
-- An environment in memory, which shows that what `Env` asks for can be met.
pub mod Sorting
use ubuy_backend.Platform.Memory.Sorting.{
  memory_newest, memory_best, memory_last_created, memory_last_ending,
}
use ubuy_backend.Base.{
  ℕ, ◌+◌, ◌≡◌, refl, ◌==◌, inl, inr, Bool, true, false, not, ◌&&◌, ◌||◌, Option, none, some,
  is_some, List, [], ◌∷◌, ◌++◌, arith, first, modify_first, modify_all, reject, remove_first, count,
  keep, IsSorted, All, ltb, leb, if◌then◌else◌, Bool-cases, ap, some_inj,
}
use ubuy_backend.Domain.{AuctionId, UserId, Bid, Job, JobId}
use ubuy_backend.Domain.Equality.{same_job, same_job_iff}
use ubuy_backend.Platform.{
  Model, Sorter, Queue, Redis, Env, IsNewer, IsBetter, update_if, upsert_into,
}
use ubuy_backend.Platform.World.{Locks}

abbrev pub memory_model : {Doc : Type 0} → Model Doc
memory_model = record {
  find_one = first;
  create = λ d c. c ++ d ∷ [];
  update_one = modify_first;
  update_many = modify_all;
  delete_one = remove_first;
  delete_many = reject;
  count_documents = count;
  find_one_and_update = λ by_id p f c. update_if p f by_id c (first by_id c);
  upsert = λ p d c. upsert_into d c (first p c);
  find_one_and_delete = λ p c. (first p c, remove_first p c);
  find_one_lem = λ p c. refl;
  create_lem = λ d c. refl;
  update_one_lem = λ p f c. refl;
  update_many_lem = λ p f c. refl;
  delete_one_lem = λ p c. refl;
  delete_many_lem = λ p c. refl;
  count_documents_lem = λ p c. refl;
  find_one_and_update_lem = λ by_id p f c. refl;
  upsert_lem = λ p d c. refl;
  find_one_and_delete_lem = λ p c. refl;
}

abbrev pub has_job : JobId → Job → Bool
has_job i j = same_job j.id i

abbrev pub add_unless_there : Job → List Job → List Job
add_unless_there j q = if is_some (first (has_job j.id) q) then q else q ++ j ∷ []

first_job-snoc :
    (i : JobId) (j : Job) (q : List Job)
    → first (has_job i) (q ++ j ∷ []) ≡ (
        if is_some (first (has_job i) q)
        then first (has_job i) q
        else if same_job j.id i
        then some j
        else none)
first_job-snoc i j [] = refl
first_job-snoc i j (k ∷ q) = ground (arith, first_job-snoc i j q)

same_job-subst :
    (i j : JobId) (q : List Job) → same_job j i ≡ true → first (has_job j) q ≡ first (has_job i) q
same_job-subst i j q h = ap (λ k. first (has_job k) q) ((same_job_iff j i).0 h)

pub memory_get_job-add :
    (i : JobId) (j : Job) (q : List Job)
    → first (has_job i) (add_unless_there j q) ≡ (
        if is_some (first (has_job i) q)
        then first (has_job i) q
        else if same_job j.id i
        then some j
        else none)
memory_get_job-add i j q = ground (arith, first_job-snoc i j q, same_job-subst i j.id q)

pub memory_get_job-remove :
    (i j : JobId) (q : List Job)
    → first (has_job i) (reject (has_job j) q)
      ≡ (if same_job j i then none else first (has_job i) q)
memory_get_job-remove i j [] = ground arith
memory_get_job-remove i j (k ∷ q) =
    ground (
      arith,
      memory_get_job-remove i j q,
      same_job_iff k.id i,
      same_job_iff k.id j,
      same_job_iff j i,
    )

abbrev pub memory_queue : Queue
memory_queue = record {
  get_job = λ i q. first (has_job i) q;
  add = add_unless_there;
  remove = λ i q. reject (has_job i) q;
  get_job-add = memory_get_job-add;
  get_job-remove = memory_get_job-remove;
}

abbrev pub is_held : ℕ → AuctionId → Locks → Bool
is_held t k [] = false
is_held t k ((j, until) ∷ l) = (j == k && ltb t until) || is_held t k l

abbrev pub unlock : AuctionId → Locks → Locks
unlock k l = reject (λ (x : AuctionId × ℕ). x.0 == k) l

abbrev pub lock : ℕ → AuctionId → ℕ → Locks → Option Locks
lock now k ttl l = if is_held now k l then none else some ((k, now + ttl) ∷ unlock k l)

pub is_held-unlock :
    (t : ℕ) (j k : AuctionId) (l : Locks)
    → is_held t j (unlock k l) ≡ (if k == j then false else is_held t j l)
is_held-unlock t j k [] = ground arith
is_held-unlock t j k ((i, until) ∷ l) = ground (arith, is_held-unlock t j k l)

pub is_held-lock :
    (now : ℕ) (k : AuctionId) (ttl : ℕ) (l : Locks) (l' : Locks) (t : ℕ) (j : AuctionId)
    → lock now k ttl l ≡ some l'
    → is_held t j l' ≡ (if k == j then ltb t (now + ttl) else is_held t j l)
is_held-lock now k ttl l l' t j h = elim (Bool-cases (is_held now k l)) [
  | inl held ↦ cc (rw held at h)
  | inr free ↦ rw (← some_inj (rw free at h)) (ground (arith, is_held-unlock t j k l))
]

pub lock_held :
    (now : ℕ) (k : AuctionId) (ttl : ℕ) (l : Locks)
    → is_some (lock now k ttl l) ≡ not (is_held now k l)
lock_held now k ttl l = ground arith

abbrev pub memory_redis : Redis
memory_redis = record {
  exists = is_held;
  set_nx = lock;
  del = unlock;
  set_nx-held = lock_held;
  exists-set_nx = is_held-lock;
  exists-del = is_held-unlock;
}

abbrev pub bidders : AuctionId → List Bid → List UserId
bidders i [] = []
bidders i (b ∷ c) =
    if b.auction_id == i
    then b.user_id ∷ keep (λ u. not (u == b.user_id)) (bidders i c)
    else bidders i c

first-keep_ne :
    (u v : UserId) (us : List UserId)
    → is_some (first (λ x. x == u) (keep (λ x. not (x == v)) us))
      ≡ (not (u == v) && is_some (first (λ x. x == u) us))
first-keep_ne u v [] = ground arith
first-keep_ne u v (x ∷ us) = ground (arith, first-keep_ne u v us)

pub mem-bidders :
    (i : AuctionId) (u : UserId) (c : List Bid)
    → is_some (first (λ v. v == u) (bidders i c))
      ≡ is_some (first (λ (b : Bid). b.auction_id == i && b.user_id == u) c)
mem-bidders i u [] = refl
mem-bidders i u (b ∷ c) = ground (arith, mem-bidders i u c, first-keep_ne u b.user_id (bidders i c))

-- Every id is valid, and the guarded calls fail as `outage` says.
abbrev pub memory : (ℕ → Bool) → Env
memory outage = record {
  auctions = memory_model;
  bids = memory_model;
  users = memory_model;
  wishlists = memory_model;
  notifications = memory_model;
  newest = memory_newest;
  best = memory_best;
  last_created = memory_last_created;
  last_ending = memory_last_ending;
  queue = memory_queue;
  redis = memory_redis;
  distinct_bidders = bidders;
  mem-distinct_bidders = mem-bidders;
  is_valid_id = λ i. true;
  outage = outage;
  new_id = λ n. 1000 + n;
}

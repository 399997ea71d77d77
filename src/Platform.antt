-- ===== src/Platform.antt =====
-- What the services call and do not implement, as parameters with the behaviour that its
-- documentation states: the Mongoose models, the BullMQ queue and the Redis client. A collection,
-- the queue and the lock table are given by what they hold; the calls that change or search them
-- are the fields of an `Env`. `outage` says which of the calls that the source guards or retries
-- (`queue.add`, notification writes, mails) are rejected.
pub mod World
pub mod Store
pub mod Calls
pub mod Memory
use ubuy_backend.Base.{
  ℕ, ◌+◌, ◌≡◌, ◌≤◌, ◌<◌, ◌⊎◌, ◌==◌, Bool, false, not, ◌&&◌, Option, none, some, is_some, List, ◌++◌,
  [], ◌∷◌, first, modify_first, modify_all, reject, remove_first, count, IsSorted, ltb,
  if◌then◌else◌,
}
use ubuy_backend.Platform.World.{Locks}
use ubuy_backend.Domain.{Auction, AuctionId, UserId, Bid, User, Wishlist, Notification, Job, JobId}
use ubuy_backend.Domain.Equality.{same_job}

-- What `findOneAndUpdate` returns and leaves, given the document with the `_id`.
abbrev pub update_if :
    {Doc : Type 0}
    → (Doc → Bool)
    → (Doc → Doc)
    → (Doc → Bool)
    → List Doc
    → Option Doc
    → Option Doc × List Doc
update_if p f by_id c none = (none, c)
update_if p f by_id c (some d) = if p d then (some (f d), modify_first by_id f c) else (none, c)

-- What an insert-only upsert returns and leaves, given the document that the filter finds.
abbrev pub upsert_into : {Doc : Type 0} → Doc → List Doc → Option Doc → Doc × List Doc
upsert_into d c none = (d, c ++ d ∷ [])
upsert_into d c (some found) = (found, c)

-- A Mongoose model. A filter is a test on documents, an update a function on them.
pub record Model (Doc : Type 0) : Type 0 where
  pub find_one : (Doc → Bool) → List Doc → Option Doc
  pub create : Doc → List Doc → List Doc
  pub update_one : (Doc → Bool) → (Doc → Doc) → List Doc → List Doc
  pub update_many : (Doc → Bool) → (Doc → Doc) → List Doc → List Doc
  pub delete_one : (Doc → Bool) → List Doc → List Doc
  pub delete_many : (Doc → Bool) → List Doc → List Doc
  pub count_documents : (Doc → Bool) → List Doc → ℕ
  -- `findOneAndUpdate({ _id, … }, …, { returnDocument: 'after' })`: the filter on the unique `_id`,
  -- and the rest of the filter.
  pub find_one_and_update :
      (Doc → Bool) → (Doc → Bool) → (Doc → Doc) → List Doc → Option Doc × List Doc
  -- `findOneAndUpdate(filter, { $setOnInsert: doc }, { upsert: true, returnDocument: 'after' })`
  pub upsert : (Doc → Bool) → Doc → List Doc → Doc × List Doc
  -- `findOneAndDelete`
  pub find_one_and_delete : (Doc → Bool) → List Doc → Option Doc × List Doc
  pub find_one_lem : (p : Doc → Bool) (c : List Doc) → find_one p c ≡ first p c
  pub create_lem : (d : Doc) (c : List Doc) → create d c ≡ c ++ d ∷ []
  pub update_one_lem :
      (p : Doc → Bool) (f : Doc → Doc) (c : List Doc) → update_one p f c ≡ modify_first p f c
  pub update_many_lem :
      (p : Doc → Bool) (f : Doc → Doc) (c : List Doc) → update_many p f c ≡ modify_all p f c
  pub delete_one_lem : (p : Doc → Bool) (c : List Doc) → delete_one p c ≡ remove_first p c
  pub delete_many_lem : (p : Doc → Bool) (c : List Doc) → delete_many p c ≡ reject p c
  pub count_documents_lem : (p : Doc → Bool) (c : List Doc) → count_documents p c ≡ count p c
  pub find_one_and_update_lem :
      (by_id p : Doc → Bool) (f : Doc → Doc) (c : List Doc)
      → find_one_and_update by_id p f c ≡ update_if p f by_id c (first by_id c)
  pub upsert_lem :
      (p : Doc → Bool) (d : Doc) (c : List Doc) → upsert p d c ≡ upsert_into d c (first p c)
  pub find_one_and_delete_lem :
      (p : Doc → Bool) (c : List Doc) → find_one_and_delete p c ≡ (first p c, remove_first p c)

-- `find().sort(…)`: the same documents as often, none behind one that the order puts after it.
pub record Sorter {Doc : Type 0} (before : Doc → Doc → Type 0) : Type 0 where
  pub sort : List Doc → List Doc
  pub count-sort : (p : Doc → Bool) (c : List Doc) → count p (sort c) ≡ count p c
  pub sort-IsSorted : (c : List Doc) → IsSorted before (sort c)

-- The queue: a job whose id is taken is not added again, and a removed job is gone.
pub record Queue : Type 0 where
  pub get_job : JobId → List Job → Option Job
  pub add : Job → List Job → List Job
  pub remove : JobId → List Job → List Job
  pub get_job-add :
      (i : JobId) (j : Job) (q : List Job)
      → get_job i (add j q)
        ≡ (if is_some (get_job i q) then get_job i q else if same_job j.id i then some j else none)
  pub get_job-remove :
      (i j : JobId) (q : List Job)
      → get_job i (remove j q) ≡ (if same_job j i then none else get_job i q)

-- `SET key value PX ttl NX` (`none` is the null reply) and `DEL key`; `exists` is what holds of a
-- key at a time.
pub record Redis : Type 0 where
  pub exists : (now : ℕ) → AuctionId → Locks → Bool
  pub set_nx : (now : ℕ) → AuctionId → (ttl : ℕ) → Locks → Option Locks
  pub del : AuctionId → Locks → Locks
  pub set_nx-held :
      (now : ℕ) (k : AuctionId) (ttl : ℕ) (l : Locks)
      → is_some (set_nx now k ttl l) ≡ not (exists now k l)
  pub exists-set_nx :
      (now : ℕ) (k : AuctionId) (ttl : ℕ) (l : Locks) (l' : Locks) (t : ℕ) (j : AuctionId)
      → set_nx now k ttl l ≡ some l'
      → exists t j l' ≡ (if k == j then ltb t (now + ttl) else exists t j l)
  pub exists-del :
      (t : ℕ) (j k : AuctionId) (l : Locks)
      → exists t j (del k l) ≡ (if k == j then false else exists t j l)

-- `sort({ createdAt: -1 })` on bids.
abbrev pub IsNewer : Bid → Bid → Type 0
IsNewer a b = b.created_at ≤ a.created_at

-- `sort({ amount: -1, createdAt: 1 })` on bids.
abbrev pub IsBetter : Bid → Bid → Type 0
IsBetter a b = (b.amount < a.amount) ⊎ ((b.amount ≡ a.amount) × (a.created_at ≤ b.created_at))

-- `sort({ createdAt: -1 })` and `sort({ endTime: -1 })` on auctions.
abbrev pub IsCreatedLater : Auction → Auction → Type 0
IsCreatedLater a b = b.created_at ≤ a.created_at

abbrev pub IsEndingLater : Auction → Auction → Type 0
IsEndingLater a b = b.end_time ≤ a.end_time

pub record Env : Type 0 where
  pub auctions : Model Auction
  pub bids : Model Bid
  pub users : Model User
  pub wishlists : Model Wishlist
  pub notifications : Model Notification
  pub newest : Sorter IsNewer
  pub best : Sorter IsBetter
  pub last_created : Sorter IsCreatedLater
  pub last_ending : Sorter IsEndingLater
  pub queue : Queue
  pub redis : Redis
  -- `bidModel.distinct('userId', { auctionId })`
  pub distinct_bidders : AuctionId → List Bid → List UserId
  pub mem-distinct_bidders :
      (i : AuctionId) (u : UserId) (c : List Bid)
      → is_some (first (λ v. v == u) (distinct_bidders i c))
        ≡ is_some (first (λ (b : Bid). b.auction_id == i && b.user_id == u) c)
  -- `Types.ObjectId.isValid`
  pub is_valid_id : AuctionId → Bool
  -- Whether the n-th guarded call is rejected.
  pub outage : ℕ → Bool
  -- The `_id` that the n-th new document gets.
  pub new_id : ℕ → ℕ

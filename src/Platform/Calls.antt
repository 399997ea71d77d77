-- ===== src/Platform/Calls.antt =====
-- Guarded calls, new ids, the queue and single documents, as methods.
use ubuy_backend.Base.{ℕ, ◌+◌, Option, ⊤, if◌then◌else◌, ◌++◌, ◌∷◌, []}
use ubuy_backend.Domain.{AuctionId, Auction, JobId, Mail}
use ubuy_backend.Platform.{Env}
use ubuy_backend.Platform.World.{Action, ok, err, unavailable, gets, modify, ◌>>◌}
use ubuy_backend.Platform.Store.{Patch, lookup, patched}

module _ (e : Env) where
  -- A call that may be rejected: the environment says whether this one is.
  unfoldable pub guarded : Action ⊤
  guarded w =
      (if e.outage w.calls then err unavailable else ok tt, record w { calls = w.calls + 1 })

  -- `auctionQueue.add(name, data, { delay, jobId })`
  unfoldable pub add_job : JobId → ℕ → Action ⊤
  unfolding guarded
  add_job i delay =
      guarded
      >> modify λ w. record w {
        jobs = e.queue.add (record { id = i; delay = delay; timestamp = w.now }) w.jobs;
      }

  -- `auctionQueue.getJob(id)`, and `job?.remove()` on what it answers
  unfoldable pub remove_job : JobId → Action ⊤
  remove_job i = modify λ w. record w { jobs = e.queue.remove i w.jobs }

  -- `auctionModel.findById(id)`
  abbrev pub find_auction : AuctionId → Action (Option Auction)
  find_auction i = gets λ w. lookup e i w.auctions

  -- `auction.save()`, `auctionModel.findByIdAndUpdate(id, { $set })`
  abbrev pub save_auction : AuctionId → Patch → Action ⊤
  save_auction i p = modify λ w. record w { auctions = patched e i p w.auctions }

  -- A mail that goes out or is refused: `sendVerificationEmail` and `sendPasswordResetEmail`.
  unfoldable pub send_mail : Mail → Action ⊤
  unfolding guarded
  send_mail m = guarded >> modify λ w. record w { mails = w.mails ++ m ∷ [] }

-- ===== src/Processor/Once.antt =====
-- Ending an auction is announced once.
use ubuy_backend.Base.{
  ℕ, ◌+◌, ◌++◌, [], ◌∷◌, ◌≡◌, refl, ◌⊎◌, inl, inr, ◌∙◌, true, false, not, ◌||◌, Option, none, some,
  arith, ⊤, List,
}
use ubuy_backend.Domain.{AuctionId, UserId, Auction, Status, Emit, SocketEvent}
use ubuy_backend.Domain.Equality.{is_active, is_ended, is_cancelled}
use ubuy_backend.Platform.{Env}
use ubuy_backend.Platform.World.{World, Result, Action, ok, err, is_ok, ◌>>◌, after}
use ubuy_backend.Platform.Store.{
  lookup, patched, lookup-patched, set_ended, set_due_at, set_notified, apply,
}
use ubuy_backend.Auctions.Payment.{payment_expiry_delay_ms, mark_auction_notified}
use ubuy_backend.Auctions.Lifecycle.{end_auction}
use ubuy_backend.Processor.Told.{Extends, open_payment_window-Extends, then_notified-emitted}
use ubuy_backend.Processor.{open_payment_window, announce_end, after_end, handle_end_auction}

module _ (e : Env) where
  -- The stored auction has ended with the winner `o`; and it has been announced.
  pub record IsOver (i : AuctionId) (o : Option UserId) (c : List Auction) : Type 0 where
    pub auction : Auction
    pub stored : lookup e i c ≡ some auction
    pub ended : auction.status ≡ Status.ended
    pub winner : auction.winner ≡ o

  pub record IsAnnounced (i : AuctionId) (o : Option UserId) (c : List Auction) : Type 0 where
    pub auction : Auction
    pub stored : lookup e i c ≡ some auction
    pub ended : auction.status ≡ Status.ended
    pub winner : auction.winner ≡ o
    pub notified : auction.notified ≡ true

  notified-IsAnnounced :
      (i : AuctionId) (o : Option UserId) (c : List Auction)
      → IsOver i o c
      → IsAnnounced i o (patched e i set_notified c)
  notified-IsAnnounced i o c h = record {
    auction = apply set_notified h.auction;
    stored = ground (arith, h.stored, lookup-patched e i c i set_notified);
    ended = h.ended;
    winner = h.winner;
    notified = refl;
  }

  open_payment_window-cases :
      (i : AuctionId) (o : Option UserId) (w : World)
      → ((open_payment_window e i o w).1.auctions ≡ w.auctions)
        ⊎ ((open_payment_window e i o w).1.auctions
            ≡ patched e i (set_due_at (w.now + payment_expiry_delay_ms)) w.auctions)
  unfolding open_payment_window
  open_payment_window-cases i none w = inl refl
  open_payment_window-cases i (some u) w = ground arith

  patched_due-IsOver :
      (i : AuctionId) (o : Option UserId) (t : ℕ) (c : List Auction)
      → IsOver i o c
      → IsOver i o (patched e i (set_due_at t) c)
  patched_due-IsOver i o t c h = record {
    auction = apply (set_due_at t) h.auction;
    stored = ground (arith, h.stored, lookup-patched e i c i (set_due_at t));
    ended = h.ended;
    winner = h.winner;
  }

  open_payment_window-IsOver :
      (i : AuctionId) (o u : Option UserId) (w : World)
      → IsOver i o w.auctions
      → IsOver i o (open_payment_window e i u w).1.auctions
  open_payment_window-IsOver i o u w h = elim (open_payment_window-cases i u w) [
    | inl same ↦ rw same h
    | inr eq ↦ rw eq (patched_due-IsOver i o (w.now + payment_expiry_delay_ms) w.auctions h)
  ]

  -- What a call leaves, and then the mark.
  then_notified :
      (i : AuctionId) (m : Action ⊤) (w : World)
      → is_ok ((m >> mark_auction_notified e i) w).0 ≡ true
      → ((m >> mark_auction_notified e i) w).1.auctions ≡ patched e i set_notified (m w).1.auctions
  unfolding mark_auction_notified
  then_notified i m w okay = go (m w) okay
    where
      go :
          (r : Result ⊤ × World)
          → is_ok (((λ _. r) >> mark_auction_notified e i) w).0 ≡ true
          → (((λ _. r) >> mark_auction_notified e i) w).1.auctions
            ≡ patched e i set_notified r.1.auctions
      go (ok a, w') h = refl
      go (err x, w') h = cc

  abbrev announced : AuctionId → Auction → World → World
  announced i a w = record w {
    emitted =
        w.emitted
        ++ Emit.to_auction i (SocketEvent.auction_ended a.highest_bidder a.current_price) ∷ [];
  }

  announce_end-IsAnnounced :
      (i : AuctionId) (o : Option UserId) (a : Auction) (w : World)
      → IsOver i o w.auctions
      → is_ok (announce_end e i a w).0 ≡ true
      → IsAnnounced i o (announce_end e i a w).1.auctions
  unfolding announce_end
  announce_end-IsAnnounced i o a w h okay =
      rw (then_notified i (open_payment_window e i a.highest_bidder) (announced i a w) okay) (
        notified-IsAnnounced i o _
          (open_payment_window-IsOver i o a.highest_bidder (announced i a w) h))

  announce_end-Extends :
      (i : AuctionId) (a : Auction) (w : World)
      → Extends (announced i a w).emitted (announce_end e i a w).1.emitted
  unfolding announce_end
  announce_end-Extends i a w =
      rw (then_notified-emitted e i (open_payment_window e i a.highest_bidder) (announced i a w))
        (open_payment_window-Extends e i a.highest_bidder (announced i a w))

  end_auction_live :
      (i : AuctionId) (a : Auction) (w : World)
      → lookup e i w.auctions ≡ some a
      → (is_ended a.status || is_cancelled a.status) ≡ false
      → end_auction e i w ≡ (
        ok (apply (set_ended a.highest_bidder) a),
        record w { auctions = patched e i (set_ended a.highest_bidder) w.auctions },
      )
  unfolding end_auction
  end_auction_live i a w found live = rw (found, end_auction, live)

  end_auction_over :
      (i : AuctionId) (a : Auction) (w : World)
      → lookup e i w.auctions ≡ some a
      → (is_ended a.status || is_cancelled a.status) ≡ true
      → end_auction e i w ≡ (ok a, w)
  unfolding end_auction
  end_auction_over i a w found over = rw (found, end_auction, over)

  after_end_skips :
      (i : AuctionId) (a : Auction) (w : World)
      → (not (is_ended a.status) || a.notified) ≡ true
      → after_end e i a w ≡ (ok tt, w)
  unfolding after_end
  after_end_skips i a w done = rw done

  after_end_announces :
      (i : AuctionId) (a : Auction) (w : World)
      → (not (is_ended a.status) || a.notified) ≡ false
      → after_end e i a w ≡ announce_end e i a w
  unfolding after_end
  after_end_announces i a w due = rw due

  handle_again :
      (i : AuctionId) (o : Option UserId) (w : World)
      → IsAnnounced i o w.auctions
      → handle_end_auction e i w ≡ (ok tt, w)
  unfolding handle_end_auction
  handle_again i o w h =
      after (end_auction e i) (after_end e i) w
        (end_auction_over i h.auction w h.stored (ground (arith, h.ended)))
      ∙ after_end_skips i h.auction w (ground (arith, h.ended, h.notified))

  handle_live :
      (i : AuctionId) (a : Auction) (w : World)
      → lookup e i w.auctions ≡ some a
      → is_active a.status ≡ true
      → handle_end_auction e i w
        ≡ after_end e i
            (apply (set_ended a.highest_bidder) a)
            (record w { auctions = patched e i (set_ended a.highest_bidder) w.auctions })
  unfolding handle_end_auction
  handle_live i a w found live =
      after (end_auction e i) (after_end e i) w (end_auction_live i a w found (ground arith))

  patched_ended-IsOver :
      (i : AuctionId) (a : Auction) (c : List Auction)
      → lookup e i c ≡ some a
      → IsOver i a.highest_bidder (patched e i (set_ended a.highest_bidder) c)
  patched_ended-IsOver i a c found = record {
    auction = apply (set_ended a.highest_bidder) a;
    stored = ground (arith, lookup-patched e i c i (set_ended a.highest_bidder));
    ended = refl;
    winner = refl;
  }

  -- When the end job of an active auction that has not been announced succeeds, the auction is ended
  -- with its highest bidder as winner and marked as notified, and the first event that is sent tells
  -- the auction's room that it has ended, with the highest bidder and the price. The job run again at
  -- any later time succeeds and changes nothing: no event, notification or job is added.
  pub handle_end_auction-once :
      (i : AuctionId) (a : Auction) (w : World) (t : ℕ)
      → lookup e i w.auctions ≡ some a
      → is_active a.status ≡ true
      → a.notified ≡ false
      → is_ok (handle_end_auction e i w).0 ≡ true
      → let w' = record (handle_end_auction e i w).1 { now = t } in
        IsAnnounced i a.highest_bidder w'.auctions
        × ((rest : List Emit) × (w'.emitted
              ≡ (w.emitted
                  ++ Emit.to_auction i (SocketEvent.auction_ended a.highest_bidder a.current_price)
                    ∷ [])
                ++ rest))
        × (handle_end_auction e i w' ≡ (ok tt, w'))
  handle_end_auction-once i a w t found live fresh okay =
      (first_run, told, handle_again i a.highest_bidder _ first_run)
    where
      ended : World
      ended = record w { auctions = patched e i (set_ended a.highest_bidder) w.auctions }

      run : handle_end_auction e i w ≡ announce_end e i (apply (set_ended a.highest_bidder) a) ended
      run = handle_live i a w found live ∙ after_end_announces i _ _ (ground arith)

      first_run : IsAnnounced i a.highest_bidder (handle_end_auction e i w).1.auctions
      first_run = rw run (
          announce_end-IsAnnounced i a.highest_bidder (apply (set_ended a.highest_bidder) a) ended
            (patched_ended-IsOver i a w.auctions found) (rw run at okay))

      told :
          Extends
            (w.emitted
              ++ Emit.to_auction i (SocketEvent.auction_ended a.highest_bidder a.current_price)
                ∷ [])
            (handle_end_auction e i w).1.emitted
      told = rw run (announce_end-Extends i (apply (set_ended a.highest_bidder) a) ended)

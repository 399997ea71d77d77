-- ===== src/Tests/Requests.antt =====
-- The theorems on requests, at a sale that comes in over HTTP.
use ubuy_backend.Base.{ℕ, ◌≡◌, none, some, List, [], ◌∷◌, arith}
use ubuy_backend.Texts.{codes}
use ubuy_backend.Domain.{AuctionId, Auction, JobId, PaymentStatus}
use ubuy_backend.Platform.Store.{lookup}
use ubuy_backend.Platform.World.{err, unauthorized}
use ubuy_backend.Changes.Invariant.{IsSound, AllSound, StaysSettled}
use ubuy_backend.Processor.{ExpiryAction}
use ubuy_backend.System
use ubuy_backend.Http.{
  Site, Happening, request, other, guarded, bids, cancels, serve_user, happen_all,
}
use ubuy_backend.Http.Guard.{Token, for_user, verified_user}
use ubuy_backend.Http.Owned.{serve_user_lem}
use ubuy_backend.Http.Settled.{happen_all-settled}
use ubuy_backend.Tests.Market.{env, paid_lamp, paid, contested}
use ubuy_backend.Tests.Links.{cashfree}

abbrev site : Site
site = record {
  cashfree = cashfree;
  secret = some (codes "secret");
  number = λ t. some 1;
  lower = λ t. t;
}

abbrev bearer : ℕ → Token
bearer u = some (record { sub = u; email = codes "someone@example.com" })

abbrev an_evening : List Happening
an_evening =
    request (bearer 8) (guarded (bids 1 140))
    ∷ other (System.Call.works ExpiryAction.switch (JobId.end_auction 1))
    ∷ request none (guarded (cancels 1))
    ∷ request (bearer 7) (guarded (cancels 1))
    ∷ []

paid_lamp-IsSound : IsSound paid_lamp
paid_lamp-IsSound = ground arith

happen_all-settled_example :
    AllSound env (happen_all env site an_evening paid).auctions
    × ((i : AuctionId) (a : Auction)
        → lookup env i paid.auctions ≡ some a
        → a.payment_status ≡ PaymentStatus.paid
        → StaysSettled env i a (happen_all env site an_evening paid).auctions)
happen_all-settled_example = happen_all-settled env site an_evening paid (paid_lamp-IsSound, tt)

-- Without a token.
refused : serve_user env site none (cancels 1) contested ≡ (err unauthorized, contested)
unfolding verified_user for_user
refused = serve_user_lem env site none contested (cancels 1)

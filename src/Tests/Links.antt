-- ===== src/Tests/Links.antt =====
-- The check of a payment link at a concrete input.
use ubuy_backend.Base.{◌≡◌, refl, true, none, some}
use ubuy_backend.Texts.{Text, codes, same_text}
use ubuy_backend.Domain.{AuctionId, UserId}
use ubuy_backend.Platform.World.{is_ok}
use ubuy_backend.Platform.Store.{lookup, patched}
use ubuy_backend.Payments.Cashfree.{Cashfree, LinkResponse, verify_cashfree_payment_link}
use ubuy_backend.Payments.Settling.{IsPaidFor}
use ubuy_backend.Payments.Verified.{IsPaidLink, IsPayer, verify_cashfree_payment_link_lem}
use ubuy_backend.Tests.Market.{env, sold}

-- Every link is paid by the one customer, and every id is read as that of the lamp.
abbrev pub cashfree : Cashfree
cashfree = record {
  is_configured = true;
  fetch_link = λ w link. some (record {
    link_id = link;
    is_paid = true;
    customer_email = some (codes "someone@example.com");
  });
  create_link = λ w request. none;
  frontend_base_url = none;
  payment_return_url = none;
  payment_notify_url = none;
  print_id = λ i. codes "0123456789abcdef01234567";
  read_id = λ t. 1;
  lower = λ t. t;
  trim = λ t. t;
}

abbrev lamp_link : Text
lamp_link = codes "auction_0123456789abcdef01234567_5"

lamp_verified : is_ok (verify_cashfree_payment_link env cashfree lamp_link sold).0 ≡ true
unfolding verify_cashfree_payment_link same_text lookup patched
lamp_verified = refl

verify_cashfree_payment_link_example :
    (i : AuctionId) × (u : UserId) × (response : LinkResponse) × IsPaidLink env cashfree lamp_link
      sold i response
    × IsPayer env cashfree sold i response u
    × IsPaidFor env i (some u) (verify_cashfree_payment_link env cashfree lamp_link sold).1.auctions
verify_cashfree_payment_link_example =
    verify_cashfree_payment_link_lem env cashfree lamp_link sold lamp_verified

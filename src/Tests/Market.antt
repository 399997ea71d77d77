-- ===== src/Tests/Market.antt =====
-- One auction of user 7, and users 7, 8 and 9, in memory.
use ubuy_backend.Base.{ℕ, true, false, none, some, List, [], ◌∷◌}
use ubuy_backend.Texts.{codes}
use ubuy_backend.Domain.{
  Auction, Bid, User, Notification, Status, PaymentStatus, Provider, NotificationType, KeyKind, key,
}
use ubuy_backend.Platform.{Env}
use ubuy_backend.Platform.World.{World}
use ubuy_backend.Platform.Memory.{memory}
use ubuy_backend.Notifications.{Input}

abbrev pub env : Env
env = memory (λ n. false)

abbrev pub lamp : Auction
lamp = record {
  id = 1;
  title = "Lamp";
  description = "A desk lamp";
  images = [];
  starting_price = 100;
  current_price = 100;
  status = Status.active;
  start_time = 0;
  end_time = 1000;
  category = codes "home";
  created_by = 7;
  highest_bidder = none;
  winner = none;
  notified = false;
  payment_status = PaymentStatus.active;
  payment_due_at = none;
  winner_history = [];
  created_at = 0;
}

-- The auction after two bids, sold to user 9, and paid for.
abbrev pub led_lamp : Auction
led_lamp = record lamp { current_price = 130; highest_bidder = some 9 }

abbrev pub sold_lamp : Auction
sold_lamp = record led_lamp { status = Status.ended; winner = some 9; notified = true }

abbrev pub paid_lamp : Auction
paid_lamp = record sold_lamp { payment_status = PaymentStatus.paid }

abbrev pub bid_by : ℕ → ℕ → ℕ → Bid
bid_by u x t = record { auction_id = 1; user_id = u; amount = x; created_at = t }

abbrev pub user_called : ℕ → User
user_called u = record {
  id = u;
  email = codes "someone@example.com";
  username = none;
  password = none;
  name = none;
  image = none;
  is_verified = true;
  google_id = none;
  provider = Provider.local;
  bidded_auctions = 1 ∷ [];
  verification_code = none;
  verification_code_expiry = none;
  password_reset_code = none;
  password_reset_code_expiry = none;
  failed_login_attempts = 0;
  locked_until = none;
  created_at = 0;
}

abbrev pub market_of : Auction → ℕ → List Bid → World
market_of a t c = record {
  now = t;
  auctions = a ∷ [];
  bids = c;
  users = user_called 7 ∷ user_called 8 ∷ user_called 9 ∷ [];
  wishlists = [];
  notifications = [];
  jobs = [];
  locks = [];
  emitted = [];
  calls = 0;
  issued = 0;
  draws = 0;
  mails = [];
}

abbrev pub two_bids : List Bid
two_bids = bid_by 9 130 20 ∷ bid_by 8 120 10 ∷ []

abbrev pub opened : World
opened = market_of lamp 500 []

abbrev pub contested : World
contested = market_of led_lamp 500 two_bids

abbrev pub overdue : World
overdue = market_of led_lamp 2000 two_bids

abbrev pub sold : World
sold = market_of sold_lamp 2000 two_bids

abbrev pub paid : World
paid = market_of paid_lamp 2000 two_bids

abbrev pub notice : Input
notice = record {
  user_id = 8;
  type = NotificationType.outbid;
  title = "You were outbid";
  dedupe_key = some (key KeyKind.out_bid 1 8 130);
}

abbrev pub louder_notice : Input
louder_notice = record notice { title = "You were outbid!" }

abbrev pub first_notice : Notification
first_notice = record {
  id = 1000;
  user_id = 8;
  type = NotificationType.outbid;
  title = "You were outbid";
  dedupe_key = some (key KeyKind.out_bid 1 8 130);
  is_read = false;
  read_at = none;
  created_at = 500;
}

abbrev pub inbox_of_8 : World
inbox_of_8 = record opened {
  notifications = first_notice ∷ record first_notice { user_id = 9 } ∷ [];
}

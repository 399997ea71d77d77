-- ===== src/Tests/Sockets.antt =====
-- The properties of sockets, caches and lists at concrete inputs.
use ubuy_backend.Base.{
  All, ℕ, ◌≡◌, ◌<◌, refl, ◌+◌, true, false, not, none, some, List, [], ◌∷◌, arith, count, ◌==◌,
}
use ubuy_backend.Texts.{Text, codes, same_text}
use ubuy_backend.Domain.{Auction}
use ubuy_backend.Platform.World.{World, Result, ok}
use ubuy_backend.Platform.Store.{is_overdue}
use ubuy_backend.Auth.Keys.{Keys}
use ubuy_backend.Auctions.Cache.{Event, asks, resolves, rejects, waits, hit, ask, key_of, step, run}
use ubuy_backend.Auctions.Cache.Single.{ask-single}
use ubuy_backend.Auctions.Cache.Origin.{WasFetched, hit-WasFetched}
use ubuy_backend.Auctions.Lists.{
  AuctionList, in_category, fetch_category, get_list_response_cache_key, find_created_by_user,
}
use ubuy_backend.Auctions.Lists.Overdue.{find_created_by_user_lem}
use ubuy_backend.Auctions.Lists.Shared.{category_key, get_list_response_cache_key-shared}
use ubuy_backend.Gateway.{Sockets, positive, Client, missing, digits, user_room, handle_place_bid}
use ubuy_backend.Gateway.Acknowledged.{IsAnswer, IsBid, handle_place_bid_lem}
use ubuy_backend.Gateway.Rooms.{
  Message, joins, leaves, bids, IsFrom, is_in, handle, handle_all, handle_all_lem,
}
use ubuy_backend.Tests.Keyring.{keys}
use ubuy_backend.Tests.Market.{env, opened, overdue}

-- Every token is one of user 8, and every text is the number 120.
abbrev sockets : Sockets
sockets = record {
  verify = λ now t. some (record { sub = 8; email = [] });
  to_number = λ t. positive 120;
  print_id = λ u. (48 + u) ∷ [];
}

abbrev stranger : Client
stranger = record {
  auth_token = none;
  authorization = some (codes "Bearer xyz");
  query_token = missing;
  user = none;
  rooms = [];
}

handle_place_bid_example :
    (r : Result Auction) × IsAnswer true r
      (handle_place_bid env sockets stranger (some 1) (digits (codes "120")) true opened).0
    × IsBid env sockets stranger
        (some 1)
        (digits (codes "120"))
        opened
        r
        (handle_place_bid env sockets stranger (some 1) (digits (codes "120")) true opened).1
handle_place_bid_example =
    handle_place_bid_lem env sockets stranger (digits (codes "120")) opened (some 1) true

abbrev messages : List (Message × World)
messages =
    (joins (some (codes "1")), opened)
    ∷ (bids (some 1) (digits (codes "120")) true, opened)
    ∷ (leaves (some (codes "1")), opened)
    ∷ []

handle_all_example :
    All
      (IsFrom sockets stranger messages (handle_all env sockets messages stranger).user)
      (handle_all env sockets messages stranger).rooms
    × (is_in
          (user_room sockets 9)
          (handle env sockets
            (joins (some (user_room sockets 9)))
            opened
            (handle_all env sockets messages stranger)).rooms
        ≡ true)
handle_all_example = handle_all_lem env sockets messages stranger opened 9

-- A fetch that has started, after one that was rejected.
abbrev fetching : Text → List (Event AuctionList)
fetching key = asks key 30 ∷ rejects 0 ∷ asks key 10 ∷ []

fetching_one : (key_of 1 (run 2000 (fetching (codes "k"))).running) ≡ some (codes "k")
unfolding run step ask same_text
fetching_one = refl

abbrev no_auctions : AuctionList
no_auctions = record { page = 1; limit = 20; total = none; total_pages = none; items = [] }

ask-single_example :
    (ask (codes "k") 40 (run 2000 (fetching (codes "k")))
      ≡ (waits 1, run 2000 (fetching (codes "k"))))
    × ((ask (codes "k") 60 (run 2000 (resolves 1 no_auctions 50 ∷ fetching (codes "k")))).0
        ≡ hit no_auctions)
ask-single_example =
    ask-single 2000 (fetching (codes "k")) 1 (codes "k") no_auctions 40 50 60 fetching_one
      (omega arith)

fetched :
    (ask (codes "k") 60 (run 2000 (resolves 1 no_auctions 50 ∷ fetching (codes "k")))).0
    ≡ hit no_auctions
unfolding run step ask same_text
fetched = refl

hit-WasFetched_example :
    (s : ℕ) × WasFetched 2000
      (codes "k")
      no_auctions
      s
      (resolves 1 no_auctions 50 ∷ fetching (codes "k"))
    × (60 < s + 2000)
hit-WasFetched_example =
    hit-WasFetched 2000 (resolves 1 no_auctions 50 ∷ fetching (codes "k")) (codes "k") 60
      no_auctions fetched

find_created_by_user_example :
    (l : AuctionList) × ((find_created_by_user env 7 none none 1 overdue).0 ≡ ok l)
    × (count (is_overdue 2000) l.items ≡ 0)
    × (count (λ a. not (a.created_by == 7)) l.items ≡ 0)
find_created_by_user_example = find_created_by_user_lem env 7 none none 1 overdue

-- Lower case that only knows one letter.
abbrev lower_keys : Keys
lower_keys = record keys { lower = λ t. codes "home" }

home_fetched :
    key_of 1 (run 2000 (fetching (category_key lower_keys 20 (codes "Home")))).running
    ≡ some (category_key lower_keys 20 (codes "Home"))
unfolding run step ask same_text get_list_response_cache_key
home_fetched = refl

get_list_response_cache_key-shared_example :
    (page : AuctionList) × ((fetch_category env (codes "Home") (some 1) (some 20) false 0 opened).0
      ≡ ok page)
    × ((ask
          (category_key lower_keys 20 (codes "home"))
          60
          (run 2000 (resolves 1 page 50 ∷ fetching (category_key lower_keys 20 (codes "Home"))))).0
        ≡ hit page)
    × (count (λ x. not (in_category (codes "Home") x)) page.items ≡ 0)
get_list_response_cache_key-shared_example =
    get_list_response_cache_key-shared env lower_keys 2000 20 60 50
      (fetching (category_key lower_keys 20 (codes "Home"))) 1 (codes "Home") (codes "home") opened
      refl refl refl home_fetched (omega arith)

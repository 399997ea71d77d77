-- ===== src/Auctions.antt =====
-- modules/auctions/auctions.service.ts: the methods of `AuctionsService` that change state.
pub mod Push
pub mod Cache
pub mod Lifecycle
pub mod Lists
pub mod Payment
pub mod Winner
pub mod Frames
pub mod Ranking
pub mod TopBidders
pub mod Groups
pub mod Leading
pub mod Swept
pub mod Deleted

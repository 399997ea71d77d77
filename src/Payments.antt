-- ===== src/Payments.antt =====
-- modules/payments/payments.service.ts.
pub mod LinkId
pub mod Webhook
pub mod Settling
pub mod Cashfree
pub mod Verified

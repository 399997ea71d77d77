-- ===== src/Auth.antt =====
-- modules/auth/auth.service.ts: `AuthService`, one child for each group of its methods. The audit
-- events that every branch logs are left out.
pub mod Keys
pub mod Codes
pub mod Usernames
pub mod Register
pub mod Reset
pub mod Login
pub mod Google
pub mod Profile

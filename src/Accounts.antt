-- ===== src/Accounts.antt =====
-- server/app/accounts.py, server/app/auth.py, server/app/admin.py, server/app/cli.py and the policy of
-- server/app/security.py: users, organisations, invites and the instance administrators.
pub mod Users
pub mod Login
pub mod Signup
pub mod Admin
pub mod Soundness
pub mod History
mod Tests

-- ===== src/Users.antt =====
-- Users (apps/users): the accounts are in `Users.Roles`, the limits on registration attempts in
-- `Users.Limits`, the registration codes in `Users.Codes`.
pub mod Limits
pub mod Codes
pub mod Roles
mod Tests

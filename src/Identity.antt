-- ===== src/Identity.antt =====
-- The Identity and Access Service (apps/identity-access-service/src/auth): effective identities, and
-- the rotation of refresh tokens.
pub mod Access
pub mod Auth
pub mod Tests

-- ===== src/Profile.antt =====
-- Profiles, options and the language of a request (server/app/domains/user, server/app/core).
pub mod Locale
pub mod Update
pub mod View
pub mod Upload
pub mod UpdateLaws
pub mod LocaleLaws
pub mod Seed
pub mod SeedLaws
pub mod Seeding
mod Tests

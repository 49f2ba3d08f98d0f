-- ===== src/Prelude.antt =====
-- The names that the other modules share: the libraries', passed on, and those of its children.
pub mod Tests
pub mod Lists
pub mod Sort
pub mod Equality
pub mod Buckets
pub mod Perms
pub mod Decimal
pub mod Reading
pub mod Text

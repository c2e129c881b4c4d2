-- ===== src/OAuth.antt =====
-- auth/oauth/: tokens and their store, the flow that gets them, and the callback. Times are numbers
-- of nanoseconds, with 0 for Go's zero time; every reading of the clock is an argument. `A` is Go's
-- `any`, and `F` the errors of providers and stores.
pub mod Types
pub mod Store
pub mod Stored
pub mod Refresh
pub mod Current
pub mod Cipher
pub mod Memory
pub mod Registry
pub mod Flow
pub mod Callback
pub mod Routing
pub mod Sqlite
pub mod Fields
pub mod Okta
pub mod Performed

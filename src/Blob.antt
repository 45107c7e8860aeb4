-- ===== src/Blob.antt =====
-- internal/blob/registry.go: sources of bytes behind a URL, each owned by the tasks that acquired it.
-- A source is a pointer, here its number; `store` is what the pointers lead to. `mu` makes each
-- method of a source one step. A session is a number too: `retained` and `released` count the calls
-- of its two methods.
pub mod Source
pub mod Registry
pub mod Range
mod Tests

-- ===== src/StatementCache.antt =====
-- include/fbpp/core/statement_cache.hpp and src/core/firebird/fb_statement_cache.cpp: the LRU cache
-- of prepared statements with checkout and return. Every operation runs under the pool's
-- mutex, but for the scan of the SQL and the test for a disabled cache at the start of `get`, and the
-- preparation for a cache that is disabled, which touches no member. So each is one step on the
-- state, and the program's threads are the order of the steps, where no `setEnabled` runs between
-- that test and the rest of the call.
pub mod Key
mod Tests
pub mod State
pub mod Lru
pub mod Prepare
pub mod Get
pub mod Maintain
pub mod Counts
pub mod Tracks
pub mod Invariant
pub mod Run
pub mod Maintained
pub mod Valid
pub mod Tally
pub mod Shrinking
pub mod Exclusive
pub mod Recency
pub mod Matching
pub mod Matched

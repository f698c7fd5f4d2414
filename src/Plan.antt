-- ===== src/Plan.antt =====
-- plan.go: the compiled plan: tokens, trie, failure links, transitions.
pub mod Tokens
pub mod Roots
pub mod RootFilter
pub mod Trie
pub mod Links
pub mod Search
pub mod AtStart
pub mod Partition

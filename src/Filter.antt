-- ===== src/Filter.antt =====
-- plan.go: the byte sieves that screen a haystack before the plan confirms a candidate.
pub mod Slots
pub mod Triple
pub mod Arrange
pub mod Pair
pub mod Vbmi
pub mod Anchor
pub mod Skip

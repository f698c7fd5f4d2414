-- ===== src/Tests.antt =====
-- Tests: the theorems at concrete inputs.
mod Filter
mod Ascii
mod Search
mod Roots
mod Plans
mod Automaton
mod Anchors
mod Tokens

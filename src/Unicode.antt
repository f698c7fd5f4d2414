-- ===== src/Unicode.antt =====
-- The raw spellings of a pattern's units (plan.go), and their packed confirmation
-- (unicode_confirm.go).
pub mod Forms
pub mod Confirm
pub mod Pack
pub mod Match

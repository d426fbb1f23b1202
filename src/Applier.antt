-- ===== src/Applier.antt =====
-- internal/applier: what is planned, printed and run for a target.
pub mod Printer
pub mod Modifiers
pub mod Ddl
pub mod Apply
pub mod ApplyTarget
pub mod Verify

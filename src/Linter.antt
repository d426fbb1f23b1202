-- ===== src/Linter.antt =====
-- internal/linter: what is noted about objects, and how the notes are kept.
pub mod DupeIndex
pub mod Results

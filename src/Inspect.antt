-- ===== src/Inspect.antt =====
-- The commands that only read: `akua tree` and `akua check`, and the durations of `--timeout`.
pub mod Tree
pub mod Check
pub mod Duration
mod Tests

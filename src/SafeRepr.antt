-- ===== src/SafeRepr.antt =====
-- src/pidprobe/_saferepr.py: the bounded, secret-masking rendering that runs in the target.
pub mod Process
pub mod Ends
pub mod Named
pub mod Names
pub mod Render
pub mod Bounds
pub mod Returns
pub mod Totality
pub mod Taken
pub mod Masking

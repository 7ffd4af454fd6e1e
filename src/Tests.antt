-- ===== src/Tests.antt =====
-- The theorems at concrete data.
mod Rendering
mod Snapshots
mod Targets
mod Answers
mod Channels
mod Preflight
mod Growth
mod Endings

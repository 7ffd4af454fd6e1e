-- ===== src/Diff.antt =====
-- src/pidprobe/_diff.py: what changed between two snapshots of one process. Snapshots are JSON documents.
pub mod Change
pub mod Types
pub mod Ranking
pub mod Sections
pub mod SectionsLaws
pub mod Series
pub mod SeriesLaws

-- ===== src/Diagnosis.antt =====
-- src/pidprobe/_diagnosis.py: the checks of `pidprobe doctor`, and how a report is written out.
pub mod Check
pub mod Report
pub mod Laws

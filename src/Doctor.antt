-- ===== src/Doctor.antt =====
-- src/pidprobe/_doctor.py, _attach_policy.py and _target_python.py: the preflight checks.
pub mod Policy
pub mod Python
pub mod Plugins
pub mod Prober
pub mod Capture
pub mod Diagnose
pub mod Built
pub mod PolicyVerdicts
pub mod PythonVerdicts
pub mod ProberVerdicts
pub mod Verdicts

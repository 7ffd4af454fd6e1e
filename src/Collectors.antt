-- ===== src/Collectors.antt =====
-- src/pidprobe/collectors: what a collector is, how collectors are put into one source, and what that
-- source does in the target.
pub mod Contract
pub mod Compose
pub mod Driver
pub mod Isolation
pub mod Fds
pub mod Gc
pub mod Objects
pub mod Stacks

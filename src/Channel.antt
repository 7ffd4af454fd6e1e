-- ===== src/Channel.antt =====
-- src/pidprobe/_channel.py: how an answer comes back from the target, and the probe around it.
pub mod Directory
pub mod DirectoryLaws
pub mod Socket
pub mod TempFile
pub mod Execute
pub mod Lifetime
pub mod SocketLaws
pub mod TempFileLaws
pub mod ExecuteLaws

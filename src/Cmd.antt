-- ===== src/Cmd.antt =====
-- cmd: the commands of podman-bootc, on Linux.
pub mod Stop
pub mod Ssh
pub mod Rm
pub mod List
pub mod Run
pub mod Locks
pub mod Harmless
pub mod Within
pub mod Guarded
pub mod Guards
pub mod MacGuards
pub mod Exclusion
pub mod Spares
pub mod Calm
pub mod Starts
pub mod Images
pub mod Keeps
pub mod Root
pub mod Vmmon
pub mod Promises

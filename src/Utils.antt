-- ===== src/Utils.antt =====
-- pkg/utils: the helpers that the other packages call.
pub mod Locks
pub mod Files
pub mod PidFiles
pub mod Process
pub mod Errors
pub mod Machine
pub mod Selection
pub mod Backoff
pub mod Net
pub mod Calm

-- ===== src/World.antt =====
-- What the program asks of the world around it: the operating system, the lock library, libvirt,
-- podman. The code under pkg/ and cmd/ calls these and sees only their answers. An answer may depend
-- on all that happened before in any way, so a `System` is a family of functions of the history;
-- nothing is assumed of them unless a theorem names it. Log output and printed text are left out.
pub mod Calls
pub mod Exec
pub mod Commands
pub mod Outcomes
pub mod Processes
pub mod Interleaved
pub mod Events
pub mod Locks
pub mod Returns
pub mod Brackets
pub mod Settles
pub mod Ensures
pub mod Judged
pub mod Sleeps
pub mod Answers
pub mod Calm

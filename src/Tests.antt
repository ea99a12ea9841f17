-- ===== src/Tests.antt =====
-- Runs of the model on concrete inputs: the theorems applied to a simulated system.
mod Sim
mod Locks
mod Disks
mod Machines
mod Storage
mod Mac
mod Processes
mod Lifecycle
mod Images

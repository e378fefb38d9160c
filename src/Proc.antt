-- ===== src/Proc.antt =====
-- Processes: the headers of include/proc and the sources of src/proc.
pub mod ChildEvent
pub mod ChildState
pub mod SigInfo
pub mod WaitStatus
pub mod ChildCloner
pub mod SubProc
pub mod Process
pub mod AuxVector
pub mod SigAction
pub mod SignalFd
pub mod Ptrace

-- ===== src/Kern.antt =====
-- The kernel, kern/: its state, and one module for each of its files that is modelled.
pub mod Mmu
pub mod State
pub mod Pmap
pub mod Printf
pub mod Env
pub mod Sched
pub mod Console
pub mod Syscall
pub mod Trap
mod Tests

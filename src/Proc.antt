-- ===== src/Proc.antt =====
-- src/proc.c and src/proc.h: the process table, its operations and the scheduler.
pub mod Table
pub mod Services
pub mod Alloc
pub mod Sleep
pub mod Sched
pub mod Fork
pub mod Exit
pub mod Valid
mod Tests

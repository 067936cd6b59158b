-- ===== src/Process/Exit.antt =====
-- `sys_exit` and `sys_waitpid` of src/kernel/exit.c.
pub mod Signal
pub mod Ended
pub mod Switched
pub mod Wait

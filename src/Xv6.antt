-- ===== src/Xv6.antt =====
-- The kernel under xv6/base, one module for each of its parts.
pub mod Bio
pub mod Bytes
pub mod Console
pub mod File
pub mod Fs
pub mod Kalloc
pub mod Log
pub mod Pipe
pub mod Proc
pub mod Sh
pub mod Spinlock
pub mod Syscall
pub mod Sysfile
pub mod Vm
pub mod Ulib

-- ===== src/Shape/Calls.antt =====
-- The system calls and what they keep.
pub mod Table
pub mod Opening
pub mod Removing
pub mod Transfers
pub mod Fields
pub mod Descriptors
pub mod Whole

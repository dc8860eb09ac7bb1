-- ===== src/Sort.antt =====
-- src/sort.c: the scalar merge sort, and what it is to be a stable sort.
pub mod Stable
pub mod Unique
pub mod Scalar
pub mod Append
pub mod Reverse

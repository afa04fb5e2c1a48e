-- ===== src/Binder/Validity.antt =====
-- The invariant of `BinderDatabase` (binder.cc) under its methods.
pub mod Queue
pub mod Invariant
pub mod Stamping
pub mod Withdrawal
pub mod Methods

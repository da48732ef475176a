-- ===== src/Tests.antt =====
-- Concrete data for the theorems: a small map from numbers to numbers, its memory and its `float`.
pub mod Data
mod Index
mod Container
mod Operations
mod Members
mod Copies
mod Failing
pub mod Oracle
pub mod Fuzz
mod SetOracle

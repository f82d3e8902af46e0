-- ===== src/Tests.antt =====
-- Runs at concrete inputs, and the theorems at inputs that meet their hypotheses.
mod Data
mod Memory
mod Strings
mod Queues
mod Numbers
mod Queries
mod Appends
mod Prints
mod Files
mod Simd
mod Dirs
mod Atomics

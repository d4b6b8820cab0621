-- ===== src/Examples.antt =====
-- Instances of what the program takes from outside, and the theorems applied to them.
mod Memory
mod Contract
mod Slices
mod Serving
mod Data
mod DispatcherTests
mod WorkerTests
mod ResultsTests
mod SystemTests
mod CommandsTests

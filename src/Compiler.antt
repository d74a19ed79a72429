-- ===== src/Compiler.antt =====
-- The code that the compiler prints for a design's rules: ocaml/backends/cpp.ml, with the analysis of
-- register histories in coq/TypedSyntaxFunctions.v, which is extracted and linked into the compiler.
pub mod History
pub mod Action
pub mod Order
pub mod Code
pub mod Below
pub mod Annotated
pub mod Footprint
pub mod Tracked
pub mod Clean
pub mod Skip
pub mod Reset
pub mod Access
pub mod Simulation
pub mod Schedule
pub mod Declared
pub mod Kinds
pub mod Cycle
pub mod Stale
pub mod Ports
pub mod Random
pub mod Warning
pub mod Atomic
pub mod Load
mod Examples

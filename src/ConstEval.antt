-- ===== src/ConstEval.antt =====
-- evaluator/: the values of compile-time evaluation, their arithmetic, and the virtual machine.
pub mod Words
pub mod Int128
pub mod Value
pub mod Fit
pub mod Code
pub mod Vm
pub mod Compiler
pub mod Evaluator
mod Tests

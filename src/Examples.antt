-- ===== src/Examples.antt =====
-- Concrete runs of the model, and the theorems at concrete inputs.
mod Expr
mod Kernel
mod Graph
mod Engine
mod Rules
mod Sim
mod Bridge
mod VectorCheck
mod Compiler2

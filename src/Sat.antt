-- ===== src/Sat.antt =====
-- cdcl.py: literals, the solver's state, and its clause database.
pub mod Literal
pub mod Solver
pub mod Propagate
pub mod Analyze
pub mod Solve
mod Tests

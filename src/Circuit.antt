-- ===== src/Circuit.antt =====
-- circuit.py: signals, their constructors, words over them, and ternary simulation.
pub mod Sig
pub mod Meaning
pub mod Numbering
pub mod Gates
pub mod Tests
pub mod Word
pub mod Count
pub mod Ternary

-- ===== src/Ai.antt =====
-- src/ai.
pub mod Calculator
pub mod CircuitBreaker
pub mod Fallback

-- ===== src/Safety.antt =====
-- internal/safety: risk reports on tokens.
pub mod Report
pub mod Token
pub mod Checker
pub mod Score
pub mod Goplus
pub mod Cache

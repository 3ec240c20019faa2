-- ===== src/Observability.antt =====
-- Observability (kernel/src/ai_os_kernel/observability).
pub mod Audit

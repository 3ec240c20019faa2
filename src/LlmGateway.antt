-- ===== src/LlmGateway.antt =====
-- The LLM Gateway, kernel/src/ai_os_kernel/llm_gateway.
pub mod Taxonomy
pub mod CircuitBreaker
pub mod Budget
pub mod Router
pub mod Backoff
pub mod Gateway

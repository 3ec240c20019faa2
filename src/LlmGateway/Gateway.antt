-- ===== src/LlmGateway/Gateway.antt =====
-- kernel/src/ai_os_kernel/llm_gateway/gateway.py: `DispatchingLLMGateway`. The state that its
-- collaborators keep is threaded through the calls, together with the clock.
pub mod Types
pub mod Call
pub mod Complete

-- ===== src/Llm.antt =====
-- app/llm.
pub mod Client
pub mod Prompts
pub mod Classifier
pub mod Attributes

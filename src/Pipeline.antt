-- ===== src/Pipeline.antt =====
-- app/pipeline/: the state of the market pipeline and the processing of an event.
pub mod State
pub mod Steps
pub mod Market
pub mod Staged
pub mod Guards
pub mod Lost

-- ===== src/Wrapper.antt =====
-- The DNS wrapper: messages (Message), the journal (Journal), and the decision to release an answer
-- (Coordinator; Processor for the older processor and gate), with what is proved of them.
pub mod Message
pub mod Journal
pub mod Coordinator
pub mod Processor
pub mod Processed
pub mod Rests
pub mod Release
mod Tests

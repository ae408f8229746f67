-- ===== src/Agent.antt =====
-- The Agents' verification chains: their nodes and rules (Chain), the evidence of a hop (Evidence),
-- signed payloads (Payload), and what is proved of them.
pub mod Toy
pub mod Chain
pub mod Keys
pub mod Print
pub mod Evidence
pub mod Payload
pub mod SignedHop
pub mod Signed
pub mod Answers
pub mod Sound
pub mod Reasons
pub mod Build
pub mod Built
pub mod Backed
pub mod Flatten
pub mod Identity
pub mod Identified
mod IdentityTests
mod Tests
mod BuildTests

-- ===== src/Watcher.antt =====
-- chain/event_watcher.py: the events that withdraw trust (Events), the poller (Poll), and what is
-- proved of them.
pub mod Events
pub mod Handled
pub mod Poll
pub mod Once
pub mod Progress
pub mod Withdraws
mod Tests

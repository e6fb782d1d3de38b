-- ===== src/Link.antt =====
-- The two paths under the connection (src/hnzconnection.cpp, src/hnzpath.cpp): which path is active,
-- the automaton of the protocol, and the frames that are received.
pub mod Activity
pub mod Protocol
pub mod Effects
pub mod Coherence
pub mod Invariant
pub mod Gi
pub mod Frames
pub mod Address
pub mod Create
pub mod Fresh
pub mod Closing
pub mod Timers
pub mod Local
pub mod Steady
pub mod Report
pub mod Audits
pub mod Audited
pub mod Quiet
pub mod Made
pub mod Asking
pub mod Calm
pub mod Shrinks
pub mod Queues
pub mod Steps
pub mod Rounds
pub mod Interrogation
pub mod Schedule
pub mod Unanswered
pub mod Quits
pub mod Samples
mod Tests

-- ===== src/Path.antt =====
-- HNZPath as far as it concerns one path alone (src/hnzpath.cpp): numbering and sending of frames,
-- acknowledgements, commands, the messages inside a frame. The children hold definitions and proofs.
pub mod Send
pub mod Ack
pub mod Commands
pub mod Extract
pub mod Window
pub mod Fifo
pub mod Queueing
pub mod Extraction
pub mod Pending
pub mod Samples
mod Tests

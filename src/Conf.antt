-- ===== src/Conf.antt =====
-- The import of the configuration (src/hnzconf.cpp): two JSON documents into an `HnzConf`.
pub mod Json
pub mod Retrieve
pub mod Protocol
pub mod Exchange
pub mod Bounds
pub mod Settings
pub mod Range
pub mod Labels
pub mod Through
pub mod Covers
pub mod Limits
pub mod Samples
mod Tests

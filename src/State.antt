-- ===== src/State.antt =====
-- The state of the plugin: the data of include/hnzpath.h, include/hnzconnection.h, include/hnz.h
-- and include/hnzconf.h. Locks, threads and log texts have no counterpart.
pub mod Conf
pub mod Link
pub mod Station
pub mod Clock

-- ===== src/Log.antt =====
-- src/util/log.h and src/util/log.hpp: the messages, the log file and its reader.
pub mod Reader
pub mod Logger
pub mod Messages
pub mod Offsets
pub mod Pull
pub mod Once
pub mod History
mod Tests

-- ===== src/Logger.antt =====
-- include/logger and src/logger: what is logged on its way to the file.
pub mod AsyncLogging
pub mod FixedBuffer
pub mod LogStream

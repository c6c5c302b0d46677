-- ===== src/Napcat.antt =====
-- internal/adapter/napcat: the QQ transport.
pub mod Startup
pub mod Directory
pub mod Incoming
pub mod Gjson
pub mod History
pub mod Lists
pub mod Client
pub mod Tests

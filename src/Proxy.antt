-- ===== src/Proxy.antt =====
-- The proxy of proxy lab/proxylab-handout: its cache of web objects and its requests.
pub mod Cache
pub mod Request
pub mod Handle
pub mod Threads
mod Tests

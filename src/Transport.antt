-- ===== src/Transport.antt =====
-- include/unleash/Transport and src/httpClient.cpp.
pub mod Messages
pub mod Headers
pub mod HttpClient
pub mod Handles

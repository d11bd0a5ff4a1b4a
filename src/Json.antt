-- ===== src/Json.antt =====
-- src/internal/jsonCodec.hpp and src/jsonCodec.cpp. nlohmann::json, which the repository does not
-- hold, is the record `Library`.
pub mod Library
pub mod Decode
pub mod Encode
pub mod RoundTrip
pub mod Schema

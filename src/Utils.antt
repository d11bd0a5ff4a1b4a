-- ===== src/Utils.antt =====
-- include/unleash/Utils/utils.hpp.
pub mod Strings
pub mod Times
pub mod Uuid

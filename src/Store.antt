-- ===== src/Store.antt =====
-- Where toggles are kept: include/unleash/Store, src/flagStore.cpp and src/storageProvider.cpp.
pub mod Flags
pub mod Provider
pub mod Files

-- ===== src/Domain.antt =====
-- The domain types: include/unleash/Domain and src/variant.cpp, toggle.cpp, toggleSet.cpp,
-- context.cpp.
pub mod Variant
pub mod Toggles
pub mod Context

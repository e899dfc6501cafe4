-- ===== src/Tools.antt =====
-- The commands of tools/: the keys (Tools/Keys, tools/keygen/main.go), the grant (Tools/Grant,
-- tools/grant/main.go) and the signed fixture (Tools/Fixture, tools/fixture/main.go).
pub mod Keys
pub mod Grant
pub mod Fixture

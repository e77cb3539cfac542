-- ===== src/Lobby.antt =====
-- lobby/src: the parts of the lobby that decide something.
pub mod BaseSwitch
pub mod ManifestEditor
pub mod Tests

-- ===== src/Hls.antt =====
-- internal/protocol/hls: HTTP live streaming; its playlists and its cryptography.
pub mod Crypto
pub mod Attributes
pub mod Playlist
pub mod Run
mod Tests

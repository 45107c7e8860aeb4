-- ===== src/Hls/Playlist.antt =====
-- internal/protocol/hls/playlist.go: playlists. What both kinds share, master playlists and media
-- playlists.
pub mod Defs
pub mod Master
pub mod Media

-- ===== src/Hls/Playlist/Media/Fold.antt =====
-- What each line of a media playlist keeps, the whole playlist keeps.
use pony_downloader.Common.{Option, none, some, List, [], ◌∷◌}
use pony_downloader.Common.Text.{Bytes}
use pony_downloader.Hls.Playlist.Defs.{
  err, ◌>>=◌, WhenOk, WhenOk->>=, lines_of, validate_m3u8_header,
}
use pony_downloader.Hls.Playlist.Media.{
  Segment, Media, MediaReader, Line, classify, read_line, read_lines, new_media_reader,
  with_segments, parse_media,
}

module _ (resolve : Bytes → Bytes) where
  pub read_lines-keep :
      (P : MediaReader → Type 0)
      → ((r : MediaReader) (line : Line) → P r → WhenOk P (read_line resolve r line))
      → (r : MediaReader) (lines : List Bytes) → P r
      → WhenOk P (read_lines resolve r lines)
  read_lines-keep P step r [] h = h
  read_lines-keep P step r (line ∷ lines) h =
      WhenOk->>= P P (read_line resolve r (classify line)) (λ r'. read_lines resolve r' lines)
        (step r (classify line) h) (λ r' h'. read_lines-keep P step r' lines h')

  -- What the loop ends with holds of the playlist.
  pub parse_media-from :
      (content : Bytes) (P : MediaReader → Type 0) (Q : Media → Type 0)
      → ((r : MediaReader) → P r → Q r.media)
      → WhenOk P (read_lines resolve (new_media_reader) (lines_of content))
      → WhenOk Q (parse_media resolve content)
  unfolding parse_media
  parse_media-from content P Q f h = checked (validate_m3u8_header content)
    where
      nonempty : (m : Media) (ss : List Segment) → Q m → WhenOk Q (with_segments m ss)
      nonempty m [] q = tt
      nonempty m (s ∷ ss) q = q

      checked :
          (e : Option _)
          → WhenOk Q (elim e [
            | some e ↦ err e
            | none ↦ read_lines resolve (new_media_reader) (lines_of content) >>= λ r.
                with_segments r.media r.media.segments
          ])
      checked (some e) = tt
      checked none =
          WhenOk->>= P Q _ (λ r. with_segments r.media r.media.segments) h
            (λ r p. nonempty r.media r.media.segments (f r p))

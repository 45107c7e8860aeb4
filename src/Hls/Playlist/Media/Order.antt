-- ===== src/Hls/Playlist/Media/Order.antt =====
-- A parsed media playlist against its lines: the segments in the order of their addresses, and the
-- tags that hold for the whole playlist.
use pony_downloader.Common.{
  pos, false, not, ◌&&◌, ◌||◌, List, [], ◌∷◌, ◌++◌, Option, none, some, if◌then◌else◌, ◌≡◌, refl,
  sym, ap, ◌∙◌, arith, append_assoc, append-nil, map,
}
use pony_downloader.Common.Text.{Bytes}
use pony_downloader.Hls.Playlist.Defs.{
  PlaylistError, live_stream, discontinuity, gap, ok, WhenOk, WhenOk->>=, WhenOk-map, WhenOk-ok,
  lines_of,
}
use pony_downloader.Hls.Playlist.Media.{
  Media, MediaReader, Line, classify, read_line, read_lines, parse_media, new_media_reader,
  validate_supported, has_gap,
}
use pony_downloader.Hls.Playlist.Media.Fold.{parse_media-from}
use pony_downloader.Hls.Playlist.Media.Gaps.{gapped, HasGaps, read_lines-HasGaps}
use pony_downloader.Hls.Playlist.Media.Lines.{
  addresses, addressed, address_of, is_endlist, is_discontinuity, is_map, some_line, ReadsLine,
  read_line-ReadsLine, &&-true, ||-false,
}

-- what a stretch of lines does to the reader
record Reads (resolve : Bytes → Bytes) (r : MediaReader) (lines : List Line) (r' : MediaReader)
    : Type 0 where
  pub addresses_eq :
      addresses r'.media.segments ≡ addresses r.media.segments ++ addressed resolve r.sequence lines
  pub live_eq : r'.media.live ≡ (r.media.live && not (some_line is_endlist lines))
  pub discontinuity_eq :
      r'.media.has_discontinuity ≡ (r.media.has_discontinuity || some_line is_discontinuity lines)
  pub fmp4_eq : r'.media.is_fmp4 ≡ (r.media.is_fmp4 || some_line is_map lines)

module _ (resolve : Bytes → Bytes) where
  Reads-more :
      (r r' r'' : MediaReader) (line : Line) (lines : List Line)
      → ReadsLine resolve r line r'
      → Reads resolve r' lines r''
      → Reads resolve r (line ∷ lines) r''
  Reads-more r r' r'' line lines h k = record {
    addresses_eq =
        k.addresses_eq
        ∙ ap (λ l. l ++ addressed resolve r'.sequence lines) h.addresses_eq
        ∙ append_assoc (addresses r.media.segments) (address_of resolve r.sequence line) _
        ∙ ap
            (λ n.
              addresses r.media.segments
              ++ (address_of resolve r.sequence line ++ addressed resolve n lines))
            h.sequence_eq;
    live_eq = ground (arith, h.live_eq, k.live_eq);
    discontinuity_eq = ground (arith, h.discontinuity_eq, k.discontinuity_eq);
    fmp4_eq = ground (arith, h.fmp4_eq, k.fmp4_eq);
  }

  read_lines-Reads :
      (r : MediaReader) (lines : List Bytes)
      → WhenOk (Reads resolve r (map classify lines)) (read_lines resolve r lines)
  read_lines-Reads r [] = record {
    addresses_eq = sym (append-nil (addresses r.media.segments));
    live_eq = &&-true r.media.live;
    discontinuity_eq = ||-false r.media.has_discontinuity;
    fmp4_eq = ||-false r.media.is_fmp4;
  }
  read_lines-Reads r (line ∷ lines) =
      WhenOk->>= (ReadsLine resolve r (classify line))
        (Reads resolve r (classify line ∷ map classify lines)) (read_line resolve r (classify line))
        (λ r'. read_lines resolve r' lines) (read_line-ReadsLine resolve r (classify line))
        (λ r' h.
          WhenOk-map (Reads resolve r' (map classify lines))
            (Reads resolve r (classify line ∷ map classify lines)) (read_lines resolve r' lines)
            (λ r'' k. Reads-more r r' r'' (classify line) (map classify lines) h k)
            (read_lines-Reads r' lines))

-- The playlist that its lines describe.
pub record Follows (resolve : Bytes → Bytes) (lines : List Line) (m : Media) : Type 0 where
  pub addresses_eq : addresses m.segments ≡ addressed resolve (pos 0) lines
  pub live_eq : m.live ≡ not (some_line is_endlist lines)
  pub discontinuity_eq : m.has_discontinuity ≡ some_line is_discontinuity lines
  pub fmp4_eq : m.is_fmp4 ≡ some_line is_map lines

-- A playlist that is parsed has a media segment for each address among its lines, in their order and no
-- other, whose number goes up by one from address to address unless a line sets it. It is live unless a
-- line ends it, it is fMP4 exactly if a line has a map, and discontinuous exactly if a line says so.
pub parse_media-Follows :
    (resolve : Bytes → Bytes) (content : Bytes) {m : Media}
    → parse_media resolve content ≡ ok m
    → Follows resolve (map classify (lines_of content)) m
parse_media-Follows resolve content e =
    let lines = map classify (lines_of content) in
    WhenOk-ok (Follows resolve lines)
      (parse_media-from resolve content (Reads resolve new_media_reader lines)
        (Follows resolve lines)
        (λ r h. record {
          addresses_eq = h.addresses_eq;
          live_eq = h.live_eq;
          discontinuity_eq = h.discontinuity_eq;
          fmp4_eq = h.fmp4_eq;
        })
        (read_lines-Reads resolve new_media_reader (lines_of content)))
      e

-- the verdict that the lines of a playlist ask for
abbrev pub verdict : List Line → Option PlaylistError
verdict lines =
    if not (some_line is_endlist lines)
    then some live_stream
    else if some_line is_discontinuity lines
    then some discontinuity
    else if gapped false lines
    then some gap
    else none

-- A playlist that is parsed is refused as a live stream exactly if none of its lines ends it, else for a
-- discontinuity exactly if a line marks one, else for a gap exactly if a gap tag stands between an address
-- and the address before it, and else it is supported.
pub validate_supported_lem :
    (resolve : Bytes → Bytes) (content : Bytes) {m : Media}
    → parse_media resolve content ≡ ok m
    → validate_supported m ≡ verdict (map classify (lines_of content))
unfolding validate_supported
validate_supported_lem resolve content {m} e =
    let lines = map classify (lines_of content) in
    let f = parse_media-Follows resolve content e in
    let gaps : has_gap m.segments ≡ gapped false lines =
      WhenOk-ok (λ (m : Media). has_gap m.segments ≡ gapped false lines)
        (parse_media-from resolve content (HasGaps new_media_reader lines)
          (λ m. has_gap m.segments ≡ gapped false lines) (λ r h. h.gaps_eq)
          (read_lines-HasGaps resolve new_media_reader (lines_of content)))
        e in
    rw (f.live_eq, f.discontinuity_eq, gaps) refl

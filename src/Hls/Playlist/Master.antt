-- ===== src/Hls/Playlist/Master.antt =====
-- internal/protocol/hls/playlist.go: master playlists. The groups of renditions are a list of group
-- names with their members, in the order in which the groups appear.
pub mod Choice
use pony_downloader.Common.{
  ℕ, ℤ, pos, ltb_ℤ, Bool, true, false, not, ◌&&◌, ◌||◌, List, [], ◌∷◌, ◌++◌, Option, none, some,
  ◌==◌, if◌then◌else◌,
}
use pony_downloader.Common.Text.{
  Bytes, codes, is_empty, eq_bytes, has_prefix, strip_prefix, to_upper,
}
use pony_downloader.Hls.Attributes.{Attributes, attribute, parse_attributes, unquote, parse_int64}
use pony_downloader.Hls.Playlist.Defs.{
  PlaylistError, not_m3u8, no_variants, separate_audio, Result, ok, err, lines_of,
  validate_m3u8_header,
}

pub record Variant : Type 0 where
  pub uri : Bytes
  pub bandwidth : ℤ
  pub avg_bandwidth : ℤ
  pub resolution : Bytes
  pub codecs : Bytes
  pub name : Bytes
  pub audio_group : Bytes

pub record MediaRendition : Type 0 where
  pub kind : Bytes
  pub group_id : Bytes
  pub uri : Bytes

pub record MasterPlaylist : Type 0 where
  pub variants : List Variant
  pub rendition : List (Bytes × List MediaRendition)

abbrev pub members : Bytes → List (Bytes × List MediaRendition) → List MediaRendition
members group [] = []
members group ((g, ms) ∷ groups) =
    let rest = members group groups in if eq_bytes g group then ms else rest

-- `master.Rendition[group] = append(master.Rendition[group], rendition)`
abbrev pub add_rendition :
    Bytes → MediaRendition → List (Bytes × List MediaRendition) → List (Bytes × List MediaRendition)
add_rendition group r [] = (group, r ∷ []) ∷ []
add_rendition group r ((g, ms) ∷ groups) =
    let rest = add_rendition group r groups in
    if eq_bytes g group then (g, ms ++ r ∷ []) ∷ groups else (g, ms) ∷ rest

-- the variables of `ParseMasterPlaylist`
pub record MasterReader : Type 0 where
  pub master : MasterPlaylist
  pub pending : Option Variant

unfoldable pub read_variant : Attributes → Variant
read_variant attrs = record {
  uri = [];
  bandwidth = parse_int64 (attribute (codes "BANDWIDTH") attrs);
  avg_bandwidth = parse_int64 (attribute (codes "AVERAGE-BANDWIDTH") attrs);
  resolution = attribute (codes "RESOLUTION") attrs;
  codecs = unquote (attribute (codes "CODECS") attrs);
  name = unquote (attribute (codes "NAME") attrs);
  audio_group = unquote (attribute (codes "AUDIO") attrs);
}

abbrev pub keep_rendition : MediaRendition → MasterPlaylist → MasterPlaylist
keep_rendition r master =
    if is_empty r.group_id
    then master
    else record master { rendition = add_rendition r.group_id r master.rendition }

abbrev pub is_comment : Bytes → Bool
is_comment [] = false
is_comment (c ∷ line) = c == b'#'

abbrev pub new_master_reader : MasterReader
new_master_reader = record { master = record { variants = []; rendition = [] }; pending = none }

abbrev pub with_variants : MasterPlaylist → List Variant → Result MasterPlaylist
with_variants master [] = err no_variants
with_variants master (v ∷ vs) = ok master

module _ (resolve : Bytes → Bytes) where
  unfoldable pub read_rendition : Attributes → MediaRendition
  read_rendition attrs =
      let uri = unquote (attribute (codes "URI") attrs) in
      record {
        kind = to_upper (attribute (codes "TYPE") attrs);
        group_id = unquote (attribute (codes "GROUP-ID") attrs);
        uri = if is_empty uri then [] else resolve uri;
      }

  -- a line behind a `#EXT-X-STREAM-INF`, or any other
  abbrev pub read_uri : Bytes → Option Variant → MasterPlaylist → MasterReader
  read_uri line none master = record { master = master; pending = none }
  read_uri line (some variant) master = record {
    master = if is_comment line then master else record master {
      variants = master.variants ++ record variant { uri = resolve line } ∷ [];
    };
    pending = none;
  }

  abbrev pub read_media_line : Option Bytes → Bytes → MasterReader → MasterReader
  read_media_line (some attrs) line r = record r {
    master = keep_rendition (read_rendition (parse_attributes attrs)) r.master;
  }
  read_media_line none line r = read_uri line r.pending r.master

  abbrev pub read_stream_line : Option Bytes → Bytes → MasterReader → MasterReader
  read_stream_line (some attrs) line r = record r {
    pending = some (read_variant (parse_attributes attrs));
  }
  read_stream_line none line r = read_media_line (strip_prefix (codes "#EXT-X-MEDIA:") line) line r

  -- one round of the loop of `ParseMasterPlaylist`
  unfoldable pub read_master_line : MasterReader → Bytes → MasterReader
  unfolding read_rendition read_variant
  read_master_line r line = read_stream_line (strip_prefix (codes "#EXT-X-STREAM-INF:") line) line r

  abbrev pub read_master_lines : MasterReader → List Bytes → MasterReader
  read_master_lines r [] = r
  read_master_lines r (line ∷ lines) = read_master_lines (read_master_line r line) lines

  -- `ParseMasterPlaylist`
  unfoldable pub parse_master_playlist : Bytes → Result MasterPlaylist
  unfolding lines_of validate_m3u8_header
  parse_master_playlist content = elim (validate_m3u8_header content) [
    | some e ↦ err e
    | none ↦
        let master = (read_master_lines new_master_reader (lines_of content)).master in
        with_variants master master.variants
  ]

-- the loop of `checkAudioRendition`
abbrev pub separate_track : List MediaRendition → Bool
separate_track [] = false
separate_track (r ∷ rs) =
    eq_bytes r.kind (codes "AUDIO") && not (is_empty r.uri) || separate_track rs

-- `checkAudioRendition` of a variant that was chosen
unfoldable pub check_audio_rendition : MasterPlaylist → Option Variant → Option PlaylistError
check_audio_rendition master none = none
check_audio_rendition master (some best) =
    if is_empty best.audio_group
    then none
    else if separate_track (members best.audio_group master.rendition)
    then some (separate_audio best.audio_group)
    else none

abbrev pub better : Option Variant → Variant → Option Variant
better none v = some v
better (some best) v = if ltb_ℤ best.bandwidth v.bandwidth then some v else some best

abbrev pub pick_from : Option Variant → List Variant → Option Variant
pick_from best [] = best
pick_from best (v ∷ vs) = pick_from (better best v) vs

-- `PickBestVariant`
unfoldable pub pick_best_variant : List Variant → Option Variant
pick_best_variant vs = pick_from none vs

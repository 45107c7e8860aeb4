-- ===== src/Hls/Playlist/Defs.antt =====
-- internal/protocol/hls/playlist.go: what the parsers of both kinds of playlist share, the lines, the
-- first line and the errors. `resolveURL` is Go's `net/url` and stands as a parameter of the parsers.
use pony_downloader.Common.{Bool, List, [], ◌∷◌, Option, none, some, if◌then◌else◌, ◌≡◌, subst}
use pony_downloader.Common.Text.{Bytes, codes, is_empty, eq_bytes, trim_space, split, contains}

-- the errors of the parsers, with the text that they quote
pub data PlaylistError : Type 0 where
  not_m3u8 empty_playlist no_variants no_segments : PlaylistError
  map_without_uri changing_map map_without_iv key_without_uri sample_aes : PlaylistError
  invalid_map_byterange invalid_byterange unsupported_key_format invalid_iv unsupported_method :
      Bytes → PlaylistError
  separate_audio : Bytes → PlaylistError
  live_stream discontinuity gap : PlaylistError

pub data Result {ℓ} (A : Type ℓ) : Type ℓ where
  ok : A → Result A
  err : PlaylistError → Result A

infixl 5 ◌>>=◌
abbrev pub ◌>>=◌ {ℓ κ} : {A : Type ℓ} {B : Type κ} → Result A → (A → Result B) → Result B
ok a >>= f = f a
err e >>= f = err e

-- the lines that the loops do not skip, without the space around them
abbrev pub keep_lines : List Bytes → List Bytes
keep_lines [] = []
keep_lines (line ∷ lines) =
    let rest = keep_lines lines in
    if is_empty (trim_space line) then rest else trim_space line ∷ rest

unfoldable pub lines_of : Bytes → List Bytes
lines_of content = keep_lines (split 10 content)

abbrev pub check_first : List Bytes → Option PlaylistError
check_first [] = some empty_playlist
check_first (line ∷ lines) = if eq_bytes line (codes "#EXTM3U") then none else some not_m3u8

-- `validateM3U8Header`
unfoldable pub validate_m3u8_header : Bytes → Option PlaylistError
unfolding lines_of
validate_m3u8_header content = check_first (lines_of content)

-- `IsMasterPlaylist`
unfoldable pub is_master_playlist : Bytes → Bool
is_master_playlist content = contains (codes "#EXT-X-STREAM-INF") content

-- What a result satisfies, if there is one.
abbrev pub WhenOk {ℓ} : {A : Type ℓ} → (A → Type 0) → Result A → Type 0
WhenOk P (ok a) = P a
WhenOk P (err e) = Unit

pub WhenOk->>= {ℓ κ} :
    {A : Type ℓ} {B : Type κ} (P : A → Type 0) (Q : B → Type 0) (m : Result A) (f : A → Result B)
    → WhenOk P m
    → ((a : A) → P a → WhenOk Q (f a))
    → WhenOk Q (m >>= f)
WhenOk->>= P Q (ok a) f h k = k a h
WhenOk->>= P Q (err e) f h k = tt

pub WhenOk->>=-any {ℓ κ} :
    {A : Type ℓ} {B : Type κ} (Q : B → Type 0) (m : Result A) (f : A → Result B)
    → ((a : A) → WhenOk Q (f a))
    → WhenOk Q (m >>= f)
WhenOk->>=-any Q (ok a) f k = k a
WhenOk->>=-any Q (err e) f k = tt

pub WhenOk-map {ℓ} :
    {A : Type ℓ} (P Q : A → Type 0) (m : Result A) → ((a : A) → P a → Q a) → WhenOk P m → WhenOk Q m
WhenOk-map P Q (ok a) f h = f a h
WhenOk-map P Q (err e) f h = tt

pub WhenOk-ok {ℓ} :
    {A : Type ℓ} (P : A → Type 0) {m : Result A} {a : A} → WhenOk P m → m ≡ ok a → P a
WhenOk-ok P h e = subst (WhenOk P) e h

-- ===== src/Http/Attempt/Reads.antt =====
-- internal/protocol/http/fetcher.go, the read loop of `downloadChunkOnce`: the bytes that a read
-- brings, those that are dropped, and the end of the body.
use pony_downloader.Common.{
  ℕ, ◌-◌, ℤ, pos, pos_part, ◌+ℤ◌, ◌-ℤ◌, ltb_ℤ, leb_ℤ, eq_ℤ, Bool, not, ◌&&◌, Option, none, some,
  ◌==◌, if◌then◌else◌, min,
}
use pony_downloader.Http.Connection.{
  remain, FetchError, invalid_range_response, incomplete_response,
}
use pony_downloader.Http.Transfer.{advance}
use pony_downloader.Http.Attempt.Sequential.{Fetch}

-- the variables of the loop
pub record Reading : Type 0 where
  pub fetch : Fetch
  pub expected : ℤ
  pub discard : ℤ
  pub read : ℤ

-- What a read leads to: the loop goes on, or it ends with an error or without one. With it go the
-- offset and the number of the bytes written.
pub data Round : Type 0 where
  more : Reading → ℤ → ℕ → Round
  stop : Reading → ℤ → ℕ → Option FetchError → Round

-- the number of bytes dropped from n
abbrev pub dropped : ℕ → ℤ → ℕ
dropped n discard = min n (pos_part discard)

abbrev pub write_offset : Fetch → ℤ
write_offset f = f.conn.chunk.begin +ℤ f.conn.chunk.downloaded

abbrev pub wrote : ℕ → Reading → Reading
wrote k r = record r { fetch = record r.fetch { conn = advance k r.fetch.conn } }

-- n bytes that are not to be dropped
abbrev pub write_rest : ℕ → Reading → Round
write_rest n r =
    if n == 0
    then more r (write_offset r.fetch) 0
    else if not r.fetch.res.range
    then more (wrote n r) (write_offset r.fetch) n
    else if leb_ℤ (remain r.fetch.conn.chunk) (pos 0)
    then stop r (write_offset r.fetch) 0 none
    else if ltb_ℤ (remain r.fetch.conn.chunk) (pos n)
    then stop (wrote (pos_part (remain r.fetch.conn.chunk)) r) (write_offset r.fetch)
        (pos_part (remain r.fetch.conn.chunk)) none
    else more (wrote n r) (write_offset r.fetch) n

-- a read of n bytes, more than none
unfoldable pub read_data : ℕ → Reading → Round
read_data n r =
    let r' = record r {
      read = r.read +ℤ pos n;
      discard = r.discard -ℤ pos (dropped n r.discard);
    } in
    if leb_ℤ (pos 0) r.expected && ltb_ℤ r.expected (r.read +ℤ pos n)
    then stop (record r { read = r.read +ℤ pos n }) (write_offset r.fetch) 0
        (some invalid_range_response)
    else write_rest (n - dropped n r.discard) r'

-- the check of the length at the end of the body
unfoldable pub end_of_body : Bool → Reading → Option FetchError
end_of_body range_requested r =
    if leb_ℤ (pos 0) r.expected && not (eq_ℤ r.read r.expected)
    then (if range_requested && ltb_ℤ r.read r.expected
        then some incomplete_response
        else some invalid_range_response)
    else none

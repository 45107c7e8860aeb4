-- ===== src/Http/Attempt/Once.antt =====
-- internal/protocol/http/fetcher.go: the whole of `downloadChunkOnce`, with what the network answers
-- as an input.
use pony_downloader.Common.{
  ℕ, pos, ltb_ℤ, Bool, true, false, ◌&&◌, ◌||◌, List, [], ◌∷◌, Option, none, some, ◌==◌,
  if◌then◌else◌,
}
use pony_downloader.Http.Connection.{Chunk, FetchError, request_error, other_error}
use pony_downloader.Http.Attempt.{
  Plan, Prepared, nothing_left, request, prepare, Response, final_response, receive_success,
}
use pony_downloader.Http.Attempt.Sequential.{
  Fetch, Environment, Tried, accepted, refused, Body, resize_sequential_resource,
}
use pony_downloader.Http.Attempt.Reads.{Reading, more, stop, read_data, end_of_body}

-- one read of the body: some bytes, the end, or an error of the network
pub data Read : Type 0 where
  got : ℕ → Read
  end_of_stream broken : Read

-- What one attempt meets: whether it is cancelled before it starts, the answer of the client if there
-- is one, the answer of the original address behind a redirect, and the reads of the body, behind which
-- the context is cancelled. `helped` is the chunk that `helpOtherConnection` then gives.
pub record World : Type 0 where
  pub env : Environment
  pub cancelled_before : Bool
  pub own_range : Bool
  pub answer : Option Response
  pub has_redirect : Bool
  pub fallback : Option Response
  pub reads : List Read
  pub helped : Option Chunk

pub data Ending : Type 0 where
  done cancelled : Ending
  failed_with : FetchError → Ending

-- what an attempt leaves, and whether it came to the body of a response
pub record Once : Type 0 where
  pub fetch : Fetch
  pub ending : Ending
  pub connected : Bool

abbrev pub ended : Fetch → Option FetchError → Once
ended f none = record { fetch = f; ending = done; connected = true }
ended f (some e) = record { fetch = f; ending = failed_with e; connected = true }

-- a restarted response of unknown length
abbrev pub unknown_length : Plan → Response → Bool
unknown_length p r =
    (p.intentional_restart || p.range_requested && r.status == 200)
    && ltb_ℤ r.content_length (pos 0)

abbrev pub resized : Plan → Reading → Tried → Once
resized p r (accepted b) = ended b.fetch (end_of_body p.range_requested r)
resized p r (refused f e) = ended f (some e)

-- the end of the body
abbrev pub end_once : Environment → Plan → Response → Reading → Once
end_once env p response r =
    if unknown_length p response
    then resized p r (
        resize_sequential_resource env r.read
          (λ f. accepted (record { fetch = f; expected = r.expected; discard = r.discard }))
          r.fetch)
    else ended r.fetch (end_of_body p.range_requested r)

-- the read loop
unfoldable pub read_body : Environment → Plan → Response → Reading → List Read → Once
unfolding end_of_body
read_body env p response r [] = record { fetch = r.fetch; ending = cancelled; connected = true }
read_body env p response r (got n ∷ reads) = elim (read_data n r) [
  | more r' offset k ↦ read_body env p response r' reads
  | stop r' offset k e ↦ ended r'.fetch e
]
read_body env p response r (end_of_stream ∷ reads) = end_once env p response r
read_body env p response r (broken ∷ reads) = ended r.fetch (some other_error)

abbrev pub start_reading : Body → Reading
start_reading b = record {
  fetch = b.fetch;
  expected = b.expected;
  discard = b.discard;
  read = pos 0;
}

abbrev pub not_connected : Fetch → Ending → Once
not_connected f e = record { fetch = f; ending = e; connected = false }

abbrev pub read_response : World → Plan → Response → Tried → Once
read_response w p r (accepted b) = read_body w.env p r (start_reading b) w.reads
read_response w p r (refused f e) = not_connected f (failed_with e)

abbrev pub take_response : World → Plan → ℕ → Option Response → Once
take_response w p status none = not_connected p.fetch (failed_with (request_error status))
take_response w p status (some r) = read_response w p r (receive_success w.env p r)

abbrev pub send : World → Plan → Option Response → Once
send w p none = not_connected p.fetch (failed_with other_error)
send w p (some r) = take_response w p r.status (final_response w.has_redirect w.fallback r)

abbrev pub send_prepared : World → Prepared → Once
send_prepared w (nothing_left f) = not_connected f done
send_prepared w (request p) = send w p w.answer

-- `downloadChunkOnce`
unfoldable pub download_chunk_once : World → Fetch → Once
unfolding prepare receive_success read_body
download_chunk_once w f =
    if w.cancelled_before
    then not_connected f cancelled
    else send_prepared w (prepare w.own_range f)

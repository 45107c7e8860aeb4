-- ===== src/Http/Retry/Ready.antt =====
-- What one attempt leaves of the fetcher.
use pony_downloader.Common.{
  ℕ, ◌-◌, pos, pos_part, ◌+ℤ◌, ◌-ℤ◌, ltb_ℤ, leb_ℤ, false, not, ◌&&◌, List, [], ◌∷◌, Option, none,
  some, ◌==◌, if◌then◌else◌, if_both,
}
use pony_downloader.Http.Connection.{FetchError, remain, other_error, invalid_range_response}
use pony_downloader.Http.Attempt.{
  Plan, Prepared, nothing_left, request, prepare, Response, final_response, receive_success,
}
use pony_downloader.Http.Attempt.Sequential.{
  Fetch, Environment, Tried, accepted, refused, resize_sequential_resource, truncate,
}
use pony_downloader.Http.Attempt.Reads.{
  Reading, Round, more, stop, read_data, write_rest, wrote, write_offset, dropped, end_of_body,
}
use pony_downloader.Http.Attempt.Once.{
  cancelled, World, Once, Read, got, end_of_stream, broken, read_body, end_once, resized, ended,
  unknown_length, send, send_prepared, take_response, read_response, start_reading, not_connected,
  download_chunk_once,
}
use pony_downloader.Http.Attempt.Cases.{truncate_cases}
use pony_downloader.Http.Attempt.Steady.{
  IsSteady, IsSettled, IsSettled-IsSteady, Ends, Prepares, prepare-Prepares, receive_success-Ends,
}

Settles : Round → Type 0
Settles (more r offset k) = IsSettled r.fetch
Settles (stop r offset k e) = IsSettled r.fetch

wrote-IsSettled : (k : ℕ) (r : Reading) → IsSettled r.fetch → IsSettled (wrote k r).fetch
wrote-IsSettled k r v = record { settled = v.settled; from_first = v.from_first }

write_rest-Settles : (n : ℕ) (r : Reading) → IsSettled r.fetch → Settles (write_rest n r)
unfolding Settles
write_rest-Settles n r v =
    let offset = write_offset r.fetch in
    let left = remain r.fetch.conn.chunk in
    let last = stop (wrote (pos_part left) r) offset (pos_part left) none in
    let next = more (wrote n r) offset n in
    let within : Round = if ltb_ℤ left (pos n) then last else next in
    let ranged : Round = if leb_ℤ left (pos 0) then stop r offset 0 none else within in
    if_both Settles (n == 0) (more r offset 0) (if not r.fetch.res.range then next else ranged) v (
      if_both Settles (not r.fetch.res.range) next ranged (wrote-IsSettled n r v) (
        if_both Settles (leb_ℤ left (pos 0)) (stop r offset 0 none) within v (
          if_both Settles (ltb_ℤ left (pos n)) last next (wrote-IsSettled (pos_part left) r v)
            (wrote-IsSettled n r v))))

read_data-Settles : (n : ℕ) (r : Reading) → IsSettled r.fetch → Settles (read_data n r)
unfolding read_data Settles
read_data-Settles n r v =
    let r' = record r {
      read = r.read +ℤ pos n;
      discard = r.discard -ℤ pos (dropped n r.discard);
    } in
    if_both Settles (leb_ℤ (pos 0) r.expected && ltb_ℤ r.expected (r.read +ℤ pos n))
      (stop (record r { read = r.read +ℤ pos n }) (write_offset r.fetch) 0
        (some invalid_range_response))
      (write_rest (n - dropped n r.discard) r') v
      (write_rest-Settles (n - dropped n r.discard) r' v)

abbrev pub Kept : Once → Type 0
Kept o = IsSteady o.fetch

ended-Kept : (f : Fetch) (e : Option FetchError) → IsSteady f → Kept (ended f e)
ended-Kept f none v = v
ended-Kept f (some e) v = v

turned :
    (t : Round) (next : Reading → Once)
    → Settles t
    → ((r : Reading) → IsSettled r.fetch → Kept (next r))
    → Kept (elim t [ more r offset k ↦ next r | stop r offset k e ↦ ended r.fetch e ])
unfolding Settles
turned (more r offset k) next v h = h r v
turned (stop r offset k e) next v h = ended-Kept r.fetch e (IsSettled-IsSteady r.fetch v)

resized-Kept : (p : Plan) (r : Reading) (t : Tried) → Ends t → Kept (resized p r t)
resized-Kept p r (accepted b) v =
    ended-Kept b.fetch (end_of_body p.range_requested r) (IsSettled-IsSteady b.fetch v)
resized-Kept p r (refused f e) v = ended-Kept f (some e) v

module _ (env : Environment) (p : Plan) (response : Response) where
  end_once-Kept : (r : Reading) → IsSettled r.fetch → Kept (end_once env p response r)
  end_once-Kept r v =
      let steady = IsSettled-IsSteady r.fetch v in
      let next = λ (f : Fetch).
        accepted (record { fetch = f; expected = r.expected; discard = r.discard }) in
      let resize = resize_sequential_resource env r.read next r.fetch in
      if_both Kept (unknown_length p response) (resized p r resize)
        (ended r.fetch (end_of_body p.range_requested r))
        (resized-Kept p r resize (
          if_both Ends (ltb_ℤ r.read (pos 0)) (refused r.fetch other_error)
            (truncate env r.read
              (λ f. next (record f { res = record f.res { size = r.read }; size_unknown = false }))
              r.fetch)
            steady
            (truncate_cases Ends r.fetch (λ e. steady) env r.read
              (λ f. next (record f { res = record f.res { size = r.read }; size_unknown = false }))
              (record { settled = v.settled; from_first = v.from_first }))))
        (ended-Kept r.fetch (end_of_body p.range_requested r) steady)

  read_body-Kept :
      (r : Reading) (reads : List Read)
      → IsSettled r.fetch
      → Kept (read_body env p response r reads)
  unfolding read_body
  read_body-Kept r [] v = IsSettled-IsSteady r.fetch v
  read_body-Kept r (got n ∷ reads) v =
      turned (read_data n r) (λ r'. read_body env p response r' reads) (read_data-Settles n r v)
        (λ r' v'. read_body-Kept r' reads v')
  read_body-Kept r (end_of_stream ∷ reads) v = end_once-Kept r v
  read_body-Kept r (broken ∷ reads) v = IsSettled-IsSteady r.fetch v

send_prepared-Kept : (w : World) (q : Prepared) → Prepares q → Kept (send_prepared w q)
send_prepared-Kept w (nothing_left f) v = v
send_prepared-Kept w (request p) (v, ranged) = sent w.answer
  where
    received : (r : Response) (t : Tried) → Ends t → Kept (read_response w p r t)
    received r (accepted b) e = read_body-Kept w.env p r (start_reading b) w.reads e
    received r (refused f x) e = e

    taken : (status : ℕ) (o : Option Response) → Kept (take_response w p status o)
    taken status none = v
    taken status (some r) =
        received r (receive_success w.env p r) (receive_success-Ends w.env p r v ranged)

    sent : (o : Option Response) → Kept (send w p o)
    sent none = v
    sent (some r) = taken r.status (final_response w.has_redirect w.fallback r)

pub download_chunk_once-Kept : (w : World) (f : Fetch) → IsSteady f → Kept (download_chunk_once w f)
unfolding download_chunk_once
download_chunk_once-Kept w f v =
    if_both Kept w.cancelled_before (not_connected f cancelled)
      (send_prepared w (prepare w.own_range f)) v
      (send_prepared-Kept w (prepare w.own_range f) (prepare-Prepares w.own_range f v))

-- ===== src/Blob/Tests.antt =====
-- Tests of the blob registry and the witnesses of its theorems.
use pony_downloader.Common.{
  ◌+ℤ◌, ◌-ℤ◌, ℕ, ◌+◌, ◌≤◌, ◌<◌, ◌≡◌, refl, true, false, [], ◌∷◌, none, some, arith, count, pos,
}
use pony_downloader.Blob.Source.{
  Source, new_source, some_error, acquire_task, acquire_open, release_task, close,
}
use pony_downloader.Blob.Source.Failures.{fails, succeeds, read_all, two_in_a_row, read_all_lem}
use pony_downloader.Blob.Source.References.{acquire_times, release_times, release_times_lem}
use pony_downloader.Blob.Registry.{
  Registry, has_session, create_opener, acquire, release, serve, close_all, continue_call,
}
use pony_downloader.Blob.Registry.Sessions.{IsSound}
use pony_downloader.Blob.Registry.Lifetime.{
  new_registry, Reach, here, next, create, claim, give_back, respond, shut, go_on, Reach-IsSound,
  close_all_lem,
}
use pony_downloader.Blob.Registry.Later.{IsLater}
use pony_downloader.Common.Text.{codes, parse_int, parse_uint, scan, signed}
use pony_downloader.Http.Range.{format_range_header}
use pony_downloader.Blob.Range.{whole, refused, parse_range, write_headers}
use pony_downloader.Blob.Range.Exchange.{validate_headers, exchange_lem}

read_all_lem_example :
    some_error (read_all (fails 7 ∷ succeeds ∷ fails 8 ∷ fails 9 ∷ []) (new_source none)).read_err
    ≡ two_in_a_row (fails 7 ∷ succeeds ∷ fails 8 ∷ fails 9 ∷ [])
read_all_lem_example =
    read_all_lem (fails 7 ∷ succeeds ∷ fails 8 ∷ fails 9 ∷ []) (new_source none) refl refl

release_times_lem_example :
    (1 < 2
      → ((release_times 1 (acquire_times 2 (new_source (some 5)))).0.revoked ≡ false)
        × ((release_times 1 (acquire_times 2 (new_source (some 5)))).1 ≡ []))
    × (2 ≤ 1
        → ((release_times 1 (acquire_times 2 (new_source (some 5)))).0.revoked ≡ true)
          × ((release_times 1 (acquire_times 2 (new_source (some 5)))).1 ≡ 5 ∷ []))
release_times_lem_example = release_times_lem 2 1 5 (omega arith)

-- A source of session 5 is created, claimed by a task and served.
abbrev blank : ℕ → Source
blank a = new_source none

abbrev served : Registry
served = (serve 1 (acquire 1 (create_opener 1 (some 5) true (pos 9) (new_registry blank)).0).0).0

served-Reach : Reach (new_registry blank) served
unfolding create_opener acquire
served-Reach =
    next (next (next here (create 1 (some 5) true (pos 9) refl)) (claim 1))
      (respond 1 (omega arith))

served_holds : served.retained 5 ≡ 2
unfolding create_opener acquire serve acquire_open acquire_task
served_holds = refl

-- The task releases it, and Close empties the map before that call has deleted the source and released
-- its session.
abbrev shutting : Registry
shutting = close_all (release 1 served).0

shutting-Reach : Reach served shutting
unfolding create_opener acquire serve acquire_open acquire_task
shutting-Reach = next (next here (give_back 1 (omega arith))) shut

Reach-IsSound_example : IsSound served × IsLater served shutting
Reach-IsSound_example = Reach-IsSound served-Reach shutting-Reach

-- Both calls come to their end.
abbrev shut_down : Registry
shut_down = continue_call 0 (continue_call 0 (continue_call 0 (continue_call 0 shutting)))

Reach-trans : {r t u : Registry} → Reach r t → Reach t u → Reach r u
Reach-trans p here = p
Reach-trans p (next q s) = next (Reach-trans p q) s

shut_down-Reach : Reach (new_registry blank) shut_down
shut_down-Reach =
    next
      (next (next (next (Reach-trans served-Reach shutting-Reach) (go_on 0)) (go_on 0)) (go_on 0))
      (go_on 0)

close_all_lem_example :
    shut_down.retained 5 ≡ shut_down.released 5 + count (λ s. has_session s 5) shut_down.readers
unfolding create_opener acquire serve acquire_open acquire_task release release_task close_all
    continue_call close
close_all_lem_example = close_all_lem shut_down-Reach refl refl 5

-- What `parseRange` refuses, and the whole source where ranges are off.
suffix_range : parse_range (codes "bytes=-5") (pos 10) true ≡ refused
unfolding parse_range
suffix_range = refl

past_the_end : parse_range (codes "bytes=10-") (pos 10) true ≡ refused
unfolding parse_range parse_int parse_uint scan signed
past_the_end = refl

no_ranges : parse_range (codes "bytes=2-") (pos 10) false ≡ whole
unfolding parse_range
no_ranges = refl

exchange_lem_example :
    validate_headers
      (write_headers
        (pos 10)
        (parse_range (format_range_header (pos 2) (some (pos 7))) (pos 10) true))
      (pos 2)
      (some (pos 7))
      (pos 10)
    ≡ some (pos 7 -ℤ pos 2 +ℤ pos 1, pos 10)
exchange_lem_example = exchange_lem 2 7 10 (omega arith) (omega arith) (omega arith)

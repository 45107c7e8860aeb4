-- ===== src/Http/Retry/Refused.antt =====
-- One attempt at a server that refuses it.
use pony_downloader.Common.{
  ℕ, ◌≡◌, refl, sym, Bool, true, false, List, [], ◌∷◌, none, some, ◌⊎◌, inl, inr, arith, if_cases,
  if_both, subst,
}
use pony_downloader.Http.Connection.{request_error, is_failure_exempt_http_code}
use pony_downloader.Http.Attempt.{
  plan_for, plan_of, has_nothing_left, restarted, can_probe_sequential_resume, must_restart,
  Response, Prepared, nothing_left, request, prepare, final_response, is_success,
}
use pony_downloader.Http.Attempt.Sequential.{Fetch}
use pony_downloader.Http.Attempt.Once.{
  World, Once, done, cancelled, failed_with, send, send_prepared, take_response, not_connected,
  download_chunk_once,
}
use pony_downloader.Http.Retry.{Run, before_attempt}

-- The server answers the attempt with a status that is an error and counts as a failure; no redirect is
-- followed, the attempt is not cancelled, and no other connection gives away work.
pub record IsRefusing (w : World) : Type 0 where
  pub response : Response
  pub answers : w.answer ≡ some response
  pub fails : is_success response.status ≡ false
  pub counts : is_failure_exempt_http_code response.status ≡ false
  pub direct : w.has_redirect ≡ false
  pub begins : w.cancelled_before ≡ false
  pub alone : w.helped ≡ none

abbrev pub AllRefusing : List World → Type 0
AllRefusing [] = Unit
AllRefusing (w ∷ ws) = IsRefusing w × AllRefusing ws

abbrev pub times : Fetch → ℕ
times f = f.conn.retry_times

pub before_attempt-times : (r : Run) → times (before_attempt r).fetch ≡ times r.fetch
before_attempt-times r = ground arith

abbrev TimesKept : ℕ → Prepared → Type 0
TimesKept n (nothing_left f) = times f ≡ n
TimesKept n (request p) = times p.fetch ≡ n

plan_for-TimesKept :
    (own probe restart : Bool) (n : ℕ) (f : Fetch)
    → times f ≡ n
    → TimesKept n (plan_for own probe restart f)
plan_for-TimesKept own probe restart n f h =
    if_both (TimesKept n) (has_nothing_left f) (nothing_left f)
      (request (plan_of own probe restart f)) h h

restarted-times : (f : Fetch) → times (restarted f) ≡ times f
restarted-times f = ground arith

prepare-TimesKept : (own : Bool) (f : Fetch) → TimesKept (times f) (prepare own f)
unfolding prepare
prepare-TimesKept own f =
    let probe = can_probe_sequential_resume f in
    let restart = must_restart f in
    if_both (λ g. TimesKept (times f) (plan_for own probe restart g)) restart (restarted f) f
      (plan_for-TimesKept own probe restart (times f) (restarted f) (restarted-times f))
      (plan_for-TimesKept own probe restart (times f) f refl)

-- The attempt finds nothing to do, or it is refused.
pub record IsRefused (n status : ℕ) (o : Once) : Type 0 where
  pub kept : times o.fetch ≡ n
  pub ending : (o.ending ≡ done) ⊎ (o.ending ≡ failed_with (request_error status))

pub clash : {b : Bool} → b ≡ true → b ≡ false → ⊥
clash h k = cc

module _ (w : World) (v : IsRefusing w) where
  no_response : final_response w.has_redirect w.fallback v.response ≡ none
  no_response = ground (arith, v.fails, v.direct)

  sent : (n : ℕ) (p : Prepared) → TimesKept n p → IsRefused n v.response.status (send_prepared w p)
  sent n (nothing_left f) h = record { kept = h; ending = inl refl }
  sent n (request p) h =
      let status = v.response.status in
      subst (λ o. IsRefused n status (send w p o)) (sym v.answers)
        (subst (λ o. IsRefused n status (take_response w p status o)) (sym no_response)
          (record { kept = h; ending = inr refl }))

  pub once-IsRefused : (f : Fetch) → IsRefused (times f) v.response.status (download_chunk_once w f)
  unfolding download_chunk_once
  once-IsRefused f =
      if_cases (IsRefused (times f) v.response.status) w.cancelled_before
        (not_connected f cancelled) (send_prepared w (prepare w.own_range f))
        (λ e. absurd (clash e v.begins))
        (λ _. sent (times f) (prepare w.own_range f) (prepare-TimesKept w.own_range f))

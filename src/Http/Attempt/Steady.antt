-- ===== src/Http/Attempt/Steady.antt =====
-- The state that one attempt leaves to the next.
use pony_downloader.Common.{
  ◌≡◌, refl, sym, ap, ap₂, ◌∙◌, ℤ, pos, negsuc, ◌-ℤ◌, Bool, true, false, ◌&&◌, ◌==◌, if◌then◌else◌,
  arith, if_cases, if_both,
}
use pony_downloader.Http.Range.{validate_range_response}
use pony_downloader.Http.Attempt.Sequential.{
  Fetch, Environment, Tried, accepted, refused, sequential, takes_over, taken_over,
  drop_resolve_fallback,
}
use pony_downloader.Http.Attempt.{
  Plan, Prepared, nothing_left, request, prepare, plan_for, plan_of, has_nothing_left, restarted,
  must_restart, can_probe_sequential_resume, Response, start_body, accept_full, ignore_range,
  bind_validator, recover_range, accept_range, take_over, accept_partial, receive_success,
}
use pony_downloader.Http.Attempt.Cases.{
  Like, opened, accept_full_cases, ignore_range_cases, take_over_cases, accept_partial_cases,
}
use pony_downloader.Http.Attempt.Planning.{reset_first, reset_downloaded, restarted_takes, clash}

-- What holds between two attempts: while the response of `Resolve` is still read by the first
-- connection, its chunk belongs to a ranged download and has no bytes of its own; and a sequential
-- download starts at the first byte.
pub record IsSteady (f : Fetch) : Type 0 where
  pub fresh : takes_over f ≡ true → (f.res.range ≡ true) × (f.conn.chunk.downloaded ≡ pos 0)
  pub from_first : f.res.range ≡ false → f.conn.chunk.begin ≡ pos 0

-- The response of `Resolve` is no longer needed.
pub record IsSettled (f : Fetch) : Type 0 where
  pub settled : takes_over f ≡ false
  pub from_first : f.res.range ≡ false → f.conn.chunk.begin ≡ pos 0

pub IsSettled-IsSteady : (f : Fetch) → IsSettled f → IsSteady f
IsSettled-IsSteady f v = record {
  fresh = λ t. absurd (clash t v.settled);
  from_first = v.from_first;
}

abbrev pub Ends : Tried → Type 0
Ends (accepted b) = IsSettled b.fetch
Ends (refused f e) = IsSteady f

no_takeover : (b : Bool) → b && false ≡ false
no_takeover b = ground arith

pub dropped-IsSteady : (f : Fetch) → IsSteady f → IsSteady (record f { resolve_fallback = false })
dropped-IsSteady f v = record {
  fresh = λ t. absurd (clash t (no_takeover (f.conn.id == 0)));
  from_first = v.from_first;
}

start-Ends : (expected discard : ℤ) (f : Fetch) → IsSettled f → Ends (start_body expected discard f)
start-Ends expected discard f v = record { settled = v.settled; from_first = v.from_first }

Like-IsSettled : (f f' : Fetch) → Like f f' → IsSettled f → IsSettled f'
Like-IsSettled f f' l v = record {
  settled = ap₂ (λ (c : _) (b : Bool). c.id == 0 && b) l.same_conn l.same_fallback ∙ v.settled;
  from_first = λ n. ap (λ c. c.chunk.begin) l.same_conn ∙ v.from_first (sym l.same_range ∙ n);
}

accept_full-Ends :
    (env : Environment) (r : Response) (f : Fetch) (restart : Bool)
    → IsSettled f
    → Ends (accept_full env restart r f)
accept_full-Ends env r f restart v =
    accept_full_cases Ends f (λ e. IsSettled-IsSteady f v) env r
      (λ expected f' l. start-Ends expected (pos 0) f' (Like-IsSettled f f' l v)) restart

sequential-IsSettled :
    (validator : _) (f : Fetch) → IsSettled f → IsSettled (sequential validator f)
sequential-IsSettled validator f v = record { settled = v.settled; from_first = λ _. refl }

drop-IsSettled :
    (f : Fetch)
    → (f.res.range ≡ false → f.conn.chunk.begin ≡ pos 0)
    → IsSettled (drop_resolve_fallback f)
drop-IsSettled f b =
    if_cases IsSettled (takes_over f) (record f { resolve_fallback = false }) f
      (λ _. record { settled = no_takeover (f.conn.id == 0); from_first = b })
      (λ n. record { settled = n; from_first = b })

accept_range-Ends :
    (p : Plan) (expected discard : ℤ) (f : Fetch)
    → IsSettled f
    → Ends (accept_range p expected discard f)
accept_range-Ends p expected discard f v =
    start-Ends expected discard (if p.resume_probe then recover_range f else f) (
      if_both IsSettled p.resume_probe (recover_range f) f
        (record { settled = v.settled; from_first = λ n. absurd (cc) }) v)

take_over-Ends :
    (env : Environment) (p : Plan) (expected : ℤ) (f : Fetch)
    → IsSteady f
    → Ends (take_over env p expected f)
take_over-Ends env p expected f v =
    take_over_cases Ends env p f expected (λ e. dropped-IsSteady f v)
      (λ n.
        accept_range-Ends p expected (pos 0) f (record { settled = n; from_first = v.from_first }))
      (λ t.
        accept_range-Ends p expected (env.prefetched -ℤ p.start) (taken_over env p.start f)
          (record { settled = no_takeover (f.conn.id == 0); from_first = v.from_first }))

abbrev pub Prepares : Prepared → Type 0
Prepares (nothing_left f) = IsSteady f
Prepares (request p) = IsSteady p.fetch × (p.fetch.res.range ≡ true → p.range_requested ≡ true)

plan_for-Prepares :
    (own_range probe again : Bool) (f : Fetch)
    → IsSteady f
    → Prepares (plan_for own_range probe again f)
plan_for-Prepares own_range probe again f v =
    if_both Prepares (has_nothing_left f) (nothing_left f)
      (request (plan_of own_range probe again f)) v (v, λ e. ground (arith, e))

restarted-IsSteady : (f : Fetch) → IsSteady f → IsSteady (restarted f)
restarted-IsSteady f v = record {
  fresh = λ w.
      let (r, d) = v.fresh (sym (restarted_takes f) ∙ w) in
      (r, reset_downloaded f.res f.conn r ∙ d);
  from_first = λ r. (reset_first f.res f.conn r).0;
}

pub prepare-Prepares : (own_range : Bool) (f : Fetch) → IsSteady f → Prepares (prepare own_range f)
unfolding prepare
prepare-Prepares own_range f v =
    let probe = can_probe_sequential_resume f in
    if_both (λ g. Prepares (plan_for own_range probe (must_restart f) g)) (must_restart f)
      (restarted f) f
      (plan_for-Prepares own_range probe (must_restart f) (restarted f) (restarted-IsSteady f v))
      (plan_for-Prepares own_range probe (must_restart f) f v)

range_false : (b : Bool) (P : Type 0) → (b ≡ true → P) → ((P → ⊥) → b ≡ false)
range_false true P h k = absurd (k (h refl))
range_false false P h k = refl

module _ (env : Environment) (p : Plan) (r : Response) (v : IsSteady p.fetch)
    (ranged : p.fetch.res.range ≡ true → p.range_requested ≡ true) where
  -- a request for no range
  unasked : p.range_requested ≡ false → IsSettled p.fetch
  unasked n = record {
    settled = range_false (takes_over p.fetch) _ v.fresh (λ e. clash (ranged e.0) n);
    from_first = v.from_first;
  }

  pub receive_success-Ends : Ends (receive_success env p r)
  unfolding receive_success
  receive_success-Ends =
      let dropped = drop_resolve_fallback p.fetch in
      let validated =
        validate_range_response r.content_range r.content_length p.start p.end p.fetch.res.size in
      let full : Tried =
        if p.range_requested
        then ignore_range env p r dropped
        else accept_full env p.intentional_restart r (bind_validator r p.fetch) in
      let partial : Tried =
        if p.range_requested
        then accept_partial env p validated
        else start_body (negsuc 0) (pos 0) p.fetch in
      let settled = drop-IsSettled p.fetch v.from_first in
      if_both Ends (r.status == 200) full partial
        (if_cases Ends p.range_requested (ignore_range env p r dropped)
          (accept_full env p.intentional_restart r (bind_validator r p.fetch))
          (λ _.
            ignore_range_cases Ends env p dropped r (λ e. IsSettled-IsSteady dropped settled)
              (accept_full-Ends env r (sequential r.validator dropped) true
                (sequential-IsSettled r.validator dropped settled))
              (λ probe n. accept_full-Ends env r dropped true settled))
          (λ n. accept_full-Ends env r (bind_validator r p.fetch) p.intentional_restart (
            if_both IsSettled p.fetch.reprobe_eligible (record p.fetch { if_range = r.validator })
              p.fetch (record { settled = (unasked n).settled; from_first = v.from_first })
              (unasked n))))
        (if_cases Ends p.range_requested (accept_partial env p validated)
          (start_body (negsuc 0) (pos 0) p.fetch)
          (λ _.
            accept_partial_cases Ends env p (λ e. v) validated
              (λ expected total.
                take_over-Ends env p expected (opened total p.fetch)
                  (record { fresh = v.fresh; from_first = v.from_first }))
              (λ expected. take_over-Ends env p expected p.fetch v))
          (λ n. start-Ends (negsuc 0) (pos 0) p.fetch (unasked n)))

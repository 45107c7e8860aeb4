-- ===== src/Http/Attempt/Alignment.antt =====
-- Where the bytes of an accepted response go.
use pony_downloader.Common.{
  ◌≡◌, refl, sym, ◌∙◌, ℤ, pos, negsuc, Bool, true, false, Option, none, some, ◌==◌, if◌then◌else◌,
  ◌⊎◌, inl, inr, arith, subst, Bool-cases, eq_of_parts, if_cases,
}
use pony_downloader.Common.Text.{Bytes, fields}
use pony_downloader.Http.Range.{
  ContentRange, accepts, range_length, validate_range_response, read_fields,
}
use pony_downloader.Http.Attempt.Sequential.{
  Fetch, Environment, Tried, accepted, Body, drop_resolve_fallback,
}
use pony_downloader.Http.Attempt.{
  Plan, Prepared, request, prepare, Response, start_body, accept_full, ignore_range, bind_validator,
  accept_partial, receive_success,
}
use pony_downloader.Http.Attempt.Reads.{write_offset}
use pony_downloader.Http.Attempt.Planning.{IsReady, IsPlan, WhenRequest, prepare-IsPlan}
use pony_downloader.Http.Attempt.Offsets.{
  WhenAccepted, IsAligned, AtFirst, accept_full-IsAligned, drop_offset, drop_range, full_response,
  from_partial,
}

abbrev pub start_of : Option ContentRange → ℤ
start_of none = pos 0
start_of (some range) = range.start

-- the offset of the first byte of the body, as the response tells it
abbrev pub body_start : Response → ℤ
body_start r = if r.status == 200 then pos 0 else start_of (read_fields (fields r.content_range))

validated_start :
    (cr : Bytes) (cl start : ℤ) (end : Option ℤ) (size : ℤ) (q : ℤ × ℤ)
    → validate_range_response cr cl start end size ≡ some q
    → start ≡ start_of (read_fields (fields cr))
unfolding validate_range_response
validated_start cr cl start end size q h = checked (read_fields (fields cr)) h
  where
    checked :
        (o : Option ContentRange)
        → (elim o [
          | none ↦ none
          | some r ↦ if accepts start end size cl r then some (range_length r, r.total) else none
        ])
          ≡ some q
        → start ≡ start_of o
    checked none h = absurd (cc)
    checked (some range) h = elim (Bool-cases (accepts start end size cl range)) [
      | inl a ↦ eq_of_parts start range.start (ground (arith, a))
      | inr n ↦ absurd (ground (arith, h, n))
    ]

bind_offset : (r : Response) (f : Fetch) → write_offset (bind_validator r f) ≡ write_offset f
bind_offset r f = ground arith

not_true : (b : Bool) → (b ≡ true → ⊥) → b ≡ false
not_true true h = absurd (h refl)
not_true false h = refl

clash : {b : Bool} → b ≡ true → b ≡ false → ⊥
clash h k = cc

module _ (env : Environment) (p : Plan) (r : Response) (v : IsPlan p) where
  ranged_response : Tried
  ranged_response =
      accept_partial env p
        (validate_range_response r.content_range r.content_length p.start p.end p.fetch.res.size)

  by_status :
      (full : Bool)
      → (full ≡ true) ⊎ (p.range_requested ≡ true)
      → WhenAccepted
          (IsAligned (if full then pos 0 else start_of (read_fields (fields r.content_range))))
          (if full
            then (if p.range_requested
                then ignore_range env p r (drop_resolve_fallback p.fetch)
                else accept_full env p.intentional_restart r (bind_validator r p.fetch))
            else if p.range_requested
            then ranged_response
            else start_body (negsuc 0) (pos 0) p.fetch)
  unfolding ranged_response
  by_status true asked =
      if_cases AtFirst p.range_requested (ignore_range env p r (drop_resolve_fallback p.fetch))
        (accept_full env p.intentional_restart r (bind_validator r p.fetch))
        (λ _.
          full_response env p r v (drop_resolve_fallback p.fetch)
            (λ probe n. drop_offset p.fetch ∙ v.full probe (sym (drop_range p.fetch) ∙ n)))
        (λ n.
          accept_full-IsAligned env r (bind_validator r p.fetch)
            (bind_offset r p.fetch
              ∙ v.full (not_true p.resume_probe (λ e. clash (v.probed e) n))
                  (not_true p.fetch.res.range (λ e. clash (v.ranged e) n)))
            p.intentional_restart)
  by_status false (inl h) = absurd (cc)
  by_status false (inr h) =
      if_cases (WhenAccepted (IsAligned (start_of (read_fields (fields r.content_range)))))
        p.range_requested ranged_response (start_body (negsuc 0) (pos 0) p.fetch)
        (λ _.
          from_partial env p r v _
            (validate_range_response r.content_range r.content_length p.start p.end
              p.fetch.res.size)
            (λ q e.
              validated_start r.content_range r.content_length p.start p.end p.fetch.res.size q e))
        (λ n. absurd (clash h n))

  plan-IsAligned :
      (r.status ≡ 200) ⊎ (p.range_requested ≡ true)
      → WhenAccepted (IsAligned (body_start r)) (receive_success env p r)
  unfolding receive_success ranged_response
  plan-IsAligned (inl e) = by_status (r.status == 200) (inl (ground (arith, e)))
  plan-IsAligned (inr q) = by_status (r.status == 200) (inr q)

WhenAccepted-accepted :
    (P : Body → Type 0) {t : Tried} {b : Body} → WhenAccepted P t → t ≡ accepted b → P b
WhenAccepted-accepted P h e = subst (WhenAccepted P) e h

WhenRequest-request :
    (P : Plan → Type 0) {t : Prepared} {p : Plan} → WhenRequest P t → t ≡ request p → P p
WhenRequest-request P h e = subst (WhenRequest P) e h

-- An attempt that starts between two attempts of a download and whose response is accepted, a 200, or
-- any other if it asked for a range, writes next at the offset in the resource of the first byte of the
-- body that it does not drop: 0 and what is dropped for a 200, else the start of the Content-Range and
-- what is dropped.
pub receive_success-IsAligned :
    (env : Environment) (own_range : Bool) (f : Fetch) (r : Response) {p : Plan} {b : Body}
    → IsReady f
    → prepare own_range f ≡ request p
    → (r.status ≡ 200) ⊎ (p.range_requested ≡ true)
    → receive_success env p r ≡ accepted b
    → IsAligned (body_start r) b
receive_success-IsAligned env own_range f r {p} ready e asked a =
    let v = WhenRequest-request IsPlan (prepare-IsPlan own_range f ready) e in
    WhenAccepted-accepted (IsAligned (body_start r)) (plan-IsAligned env p r v asked) a

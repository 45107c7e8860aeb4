-- ===== src/Http/Attempt/Offsets.antt =====
-- The chunk behind each way to accept a response.
use pony_downloader.Common.{
  ◌≡◌, refl, sym, ap, ap₂, ◌∙◌, ℤ, pos, ◌+ℤ◌, ◌-ℤ◌, Bool, true, false, Option, none, some, arith,
  subst, if_cases,
}
use pony_downloader.Common.Text.{Bytes}
use pony_downloader.Http.Attempt.Sequential.{
  Fetch, Environment, Tried, accepted, refused, Body, sequential, takes_over, drop_resolve_fallback,
  taken_over,
}
use pony_downloader.Http.Attempt.{
  Plan, Response, accept_full, ignore_range, recover_range, accept_range, take_over, accept_partial,
}
use pony_downloader.Http.Attempt.Reads.{write_offset}
use pony_downloader.Http.Attempt.Planning.{IsPlan}
use pony_downloader.Http.Attempt.Cases.{
  opened, accept_full_cases, ignore_range_cases, take_over_cases, accept_partial_cases,
}

abbrev pub WhenAccepted : (Body → Type 0) → Tried → Type 0
WhenAccepted P (accepted b) = P b
WhenAccepted P (refused f e) = Unit

-- The body starts at offset `first` of the resource, and what is dropped of it is there already.
pub record IsAligned (first : ℤ) (b : Body) : Type 0 where
  pub aligned : write_offset b.fetch ≡ first +ℤ b.discard

pub plus_zero : (z : ℤ) → z +ℤ pos 0 ≡ z
unfolding ◌+ℤ◌
plus_zero z = ground arith

abbrev pub AtFirst : Tried → Type 0
AtFirst = WhenAccepted (IsAligned (pos 0))

pub accept_full-IsAligned :
    (env : Environment) (r : Response) (f : Fetch)
    → write_offset f ≡ pos 0
    → (restart : Bool) → AtFirst (accept_full env restart r f)
accept_full-IsAligned env r f h =
    accept_full_cases AtFirst f (λ e. tt) env r
      (λ expected f' l. record {
        aligned =
            ap (λ c. c.chunk.begin +ℤ c.chunk.downloaded) l.same_conn ∙ h ∙ sym (plus_zero (pos 0));
      })

-- a sequential download starts at the first byte
sequential_offset : (validator : Bytes) (f : Fetch) → write_offset (sequential validator f) ≡ pos 0
unfolding ◌+ℤ◌
sequential_offset validator f = refl

pub drop_offset : (f : Fetch) → write_offset (drop_resolve_fallback f) ≡ write_offset f
drop_offset f = ground arith

pub drop_range : (f : Fetch) → (drop_resolve_fallback f).res.range ≡ f.res.range
drop_range f = ground arith

module _ (env : Environment) (p : Plan) (r : Response) (v : IsPlan p) where
  -- a full response, whatever was asked for
  pub full_response :
      (f : Fetch)
      → (p.resume_probe ≡ false → f.res.range ≡ false → write_offset f ≡ pos 0)
      → AtFirst (ignore_range env p r f)
  full_response f h =
      ignore_range_cases AtFirst env p f r (λ e. tt)
        (accept_full-IsAligned env r (sequential r.validator f) (sequential_offset r.validator f)
          true)
        (λ probe n. accept_full-IsAligned env r f (h probe n) true)

  -- While the response of `Resolve` is read, the chunk starts where the request does.
  fresh_start : takes_over p.fetch ≡ true → p.fetch.conn.chunk.begin ≡ p.start
  fresh_start w =
      sym (plus_zero p.fetch.conn.chunk.begin)
      ∙ ap (λ z. p.fetch.conn.chunk.begin +ℤ z) (sym (v.fresh w).1)
      ∙ sym v.its_start

  recover_offset :
      (f : Fetch) → f.conn.chunk.begin ≡ pos 0 → write_offset (recover_range f) ≡ write_offset f
  recover_offset f h = ap (λ b. b +ℤ f.conn.chunk.downloaded) (sym h)

  accept_range-IsAligned :
      (expected discard : ℤ) (f : Fetch)
      → (p.resume_probe ≡ true → f.conn.chunk.begin ≡ pos 0)
      → write_offset f ≡ p.start +ℤ discard
      → WhenAccepted (IsAligned p.start) (accept_range p expected discard f)
  accept_range-IsAligned expected discard f b h = record {
    aligned =
        if_cases (λ g. write_offset g ≡ p.start +ℤ discard) p.resume_probe (recover_range f) f
          (λ e. recover_offset f (b e) ∙ h) (λ e. h);
  }

  -- the chunk at the validated response, which may have got its end from it
  take_over-IsAligned :
      (expected : ℤ) (f : Fetch)
      → f.conn.chunk.begin ≡ p.fetch.conn.chunk.begin
      → f.conn.chunk.downloaded ≡ p.fetch.conn.chunk.downloaded
      → takes_over f ≡ takes_over p.fetch
      → WhenAccepted (IsAligned p.start) (take_over env p expected f)
  take_over-IsAligned expected f b d w =
      let overlap = env.prefetched -ℤ p.start in
      let here : write_offset f ≡ p.start = ap₂ ◌+ℤ◌ b d ∙ sym v.its_start in
      let probing : p.resume_probe ≡ true → f.conn.chunk.begin ≡ pos 0 = λ e. b ∙ (v.probing e).0 in
      take_over_cases (WhenAccepted (IsAligned p.start)) env p f expected (λ e. tt)
        (λ _. accept_range-IsAligned expected (pos 0) f probing (here ∙ sym (plus_zero p.start)))
        (λ t.
          accept_range-IsAligned expected overlap (taken_over env p.start f) probing
            (ap (λ z. z +ℤ overlap) (b ∙ fresh_start (sym w ∙ t))))

  accept_partial-IsAligned :
      (o : Option (ℤ × ℤ)) → WhenAccepted (IsAligned p.start) (accept_partial env p o)
  accept_partial-IsAligned o =
      accept_partial_cases (WhenAccepted (IsAligned p.start)) env p (λ e. tt) o
        (λ expected total. take_over-IsAligned expected (opened total p.fetch) refl refl refl)
        (λ expected. take_over-IsAligned expected p.fetch refl refl refl)

  pub from_partial :
      (first : ℤ) (o : Option (ℤ × ℤ))
      → ((q : ℤ × ℤ) → o ≡ some q → p.start ≡ first)
      → WhenAccepted (IsAligned first) (accept_partial env p o)
  from_partial first none h = tt
  from_partial first (some q) h =
      subst (λ z. WhenAccepted (IsAligned z) (accept_partial env p (some q))) (h q refl)
        (accept_partial-IsAligned (some q))

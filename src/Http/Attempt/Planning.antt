-- ===== src/Http/Attempt/Planning.antt =====
-- What an attempt knows of the chunk when it sends its request.
use pony_downloader.Common.{
  ◌≡◌, refl, sym, ◌∙◌, pos, ◌+ℤ◌, Bool, true, false, arith, if_cases, if_both,
}
use pony_downloader.Http.Connection.{Connection}
use pony_downloader.Http.Completion.{Resource, has_sequential_prefix, reset_connection_for_restart}
use pony_downloader.Http.Attempt.Sequential.{takes_over, Fetch}
use pony_downloader.Http.Attempt.{
  Plan, Prepared, nothing_left, request, prepare, plan_for, plan_of, has_nothing_left, must_restart,
  can_probe_sequential_resume, restarted,
}
use pony_downloader.Http.Attempt.Reads.{write_offset}

-- What holds between two attempts: while the response of `Resolve` is still read, the chunk of a
-- ranged download has no bytes of its own; and a sequential download starts at the first byte, with
-- none of its bytes or with a prefix that counts.
pub record IsReady (f : Fetch) : Type 0 where
  pub fresh : takes_over f ≡ true → (f.res.range ≡ true) × (f.conn.chunk.downloaded ≡ pos 0)
  pub from_first : f.res.range ≡ false → f.conn.chunk.begin ≡ pos 0
  pub prefixed :
      f.res.range ≡ false
      → has_sequential_prefix f.res f.reprobe_eligible f.connections f.conn ≡ false
      → f.conn.chunk.downloaded ≡ pos 0

pub zero_offset :
    (f : Fetch)
    → f.conn.chunk.begin ≡ pos 0
    → f.conn.chunk.downloaded ≡ pos 0
    → write_offset f ≡ pos 0
unfolding ◌+ℤ◌
zero_offset f b d = rw (b, d) refl

-- what the request knows
pub record IsPlan (p : Plan) : Type 0 where
  pub its_start : p.start ≡ write_offset p.fetch
  pub full : p.resume_probe ≡ false → p.fetch.res.range ≡ false → write_offset p.fetch ≡ pos 0
  pub probing :
      p.resume_probe ≡ true → (p.fetch.conn.chunk.begin ≡ pos 0) × (p.fetch.res.range ≡ false)
  pub fresh :
      takes_over p.fetch ≡ true
      → (p.fetch.res.range ≡ true) × (p.fetch.conn.chunk.downloaded ≡ pos 0)
  pub ranged : p.fetch.res.range ≡ true → p.range_requested ≡ true
  pub probed : p.resume_probe ≡ true → p.range_requested ≡ true

abbrev pub WhenRequest : (Plan → Type 0) → Prepared → Type 0
WhenRequest P (nothing_left f) = Unit
WhenRequest P (request p) = P p

plan_for-IsPlan :
    (own_range probe again : Bool) (f : Fetch)
    → (probe ≡ false → f.res.range ≡ false → write_offset f ≡ pos 0)
    → (probe ≡ true → (f.conn.chunk.begin ≡ pos 0) × (f.res.range ≡ false))
    → (takes_over f ≡ true → (f.res.range ≡ true) × (f.conn.chunk.downloaded ≡ pos 0))
    → WhenRequest IsPlan (plan_for own_range probe again f)
plan_for-IsPlan own_range probe again f a b c =
    if_both (WhenRequest IsPlan) (has_nothing_left f) (nothing_left f)
      (request (plan_of own_range probe again f)) tt
      (record {
        its_start = refl;
        full = a;
        probing = b;
        fresh = c;
        ranged = λ e. ground (arith, e);
        probed = λ e. ground (arith, e);
      })

probe_facts :
    (f : Fetch)
    → can_probe_sequential_resume f ≡ true
    → (f.res.range ≡ false) × (must_restart f ≡ false)
probe_facts f h = ground (arith, h)

no_probe_facts :
    (f : Fetch)
    → can_probe_sequential_resume f ≡ false
    → must_restart f ≡ false
    → has_sequential_prefix f.res f.reprobe_eligible f.connections f.conn ≡ false
no_probe_facts f h k = ground (arith, h, k)

pub reset_first :
    (res : Resource) (c : Connection)
    → res.range ≡ false
    → ((reset_connection_for_restart res c).chunk.begin ≡ pos 0)
      × ((reset_connection_for_restart res c).chunk.downloaded ≡ pos 0)
reset_first res c h = (ground (arith, h), ground (arith, h))

pub reset_downloaded :
    (res : Resource) (c : Connection)
    → res.range ≡ true
    → (reset_connection_for_restart res c).chunk.downloaded ≡ c.chunk.downloaded
reset_downloaded res c h = ground (arith, h)

pub restarted_takes : (f : Fetch) → takes_over (restarted f) ≡ takes_over f
restarted_takes f = ground arith

pub clash : {b : Bool} → b ≡ true → b ≡ false → ⊥
clash h k = cc

pub prepare-IsPlan :
    (own_range : Bool) (f : Fetch) → IsReady f → WhenRequest IsPlan (prepare own_range f)
unfolding prepare
prepare-IsPlan own_range f v =
    let probe = can_probe_sequential_resume f in
    let again = must_restart f in
    if_cases (λ g. WhenRequest IsPlan (plan_for own_range probe again g)) again (restarted f) f
      (λ a.
        plan_for-IsPlan own_range probe again (restarted f)
          (λ p r. let (b, d) = reset_first f.res f.conn r in zero_offset (restarted f) b d)
          (λ p. absurd (clash a (probe_facts f p).1))
          (λ w.
            let (r, d) = v.fresh (sym (restarted_takes f) ∙ w) in
            (r, reset_downloaded f.res f.conn r ∙ d)))
      (λ k.
        plan_for-IsPlan own_range probe again f
          (λ p r. zero_offset f (v.from_first r) (v.prefixed r (no_probe_facts f p k)))
          (λ p. (v.from_first (probe_facts f p).0, (probe_facts f p).0)) v.fresh)

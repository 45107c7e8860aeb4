-- ===== src/Http/Attempt/Cases.antt =====
-- The ways through the reception of a response: what holds of each outcome holds of the whole.
use pony_downloader.Common.{
  ◌≡◌, refl, ℤ, pos, negsuc, ◌-ℤ◌, ltb_ℤ, leb_ℤ, eq_ℤ, Bool, true, false, not, ◌&&◌, ◌||◌, Option,
  none, some, ◌==◌, if◌then◌else◌, [], arith, if_cases, if_both,
}
use pony_downloader.Http.Connection.{
  FetchError, open_ended, invalid_range_response, range_request_ignored, other_error, set_end,
}
use pony_downloader.Http.Attempt.Sequential.{
  Fetch, Environment, Tried, refused, truncate, sequential, takes_over, taken_over,
  resolve_open_ended_range, resize_sequential_resource, begin_unknown_size_sequential_resource,
}
use pony_downloader.Http.Attempt.{
  Plan, Response, start_body, accept_full, ignore_range, accept_range, take_over, accept_partial,
}

-- what a full response leaves of the fetcher
pub record Like (f f' : Fetch) : Type 0 where
  pub same_conn : f'.conn ≡ f.conn
  pub same_fallback : f'.resolve_fallback ≡ f.resolve_fallback
  pub same_range : f'.res.range ≡ f.res.range

abbrev like : (f : Fetch) → Like f f
like f = record { same_conn = refl; same_fallback = refl; same_range = refl }

module _ (P : Tried → Type 0) (f : Fetch) (refuses : (e : FetchError) → P (refused f e)) where
  pub truncate_cases :
      (env : Environment) (size : ℤ) (next : Fetch → Tried)
      → P (next (record f { file = some size }))
      → P (truncate env size next f)
  truncate_cases env size next h =
      elim f.file
        as (λ o. P (elim o [
          | none ↦ refused f other_error
          | some n ↦
              if env.truncates then next (record f { file = some size }) else refused f other_error
        ])) [
          | none ↦ refuses other_error
          | some n ↦
              if_both P env.truncates (next (record f { file = some size })) (refused f other_error)
                h (refuses other_error)
        ]

module _ (P : Tried → Type 0) (f : Fetch) (refuses : (e : FetchError) → P (refused f e))
    (env : Environment) (r : Response)
    (accepts : (expected : ℤ) (f' : Fetch) → Like f f' → P (start_body expected (pos 0) f')) where
  resized_cases :
      P (resize_sequential_resource env r.content_length (start_body r.content_length (pos 0)) f)
  resized_cases =
      let next = λ (f' : Fetch).
        start_body r.content_length (pos 0)
          (record f' { res = record f'.res { size = r.content_length }; size_unknown = false }) in
      if_both P (ltb_ℤ r.content_length (pos 0)) (refused f other_error)
        (truncate env r.content_length next f) (refuses other_error)
        (truncate_cases P f refuses env r.content_length next (
          accepts r.content_length
            (record f {
              file = some r.content_length;
              res = record f.res { size = r.content_length };
              size_unknown = false;
            })
            (record { same_conn = refl; same_fallback = refl; same_range = refl })))

  unknown_cases : P (begin_unknown_size_sequential_resource env (start_body (negsuc 0) (pos 0)) f)
  unknown_cases =
      let next = λ (f' : Fetch). start_body (negsuc 0) (pos 0) (record f' {
        res = record f'.res { size = pos 0 };
        size_unknown = true;
        if_range = [];
        validator_pinned = false;
      }) in
      truncate_cases P f refuses env (pos 0) next (
        accepts (negsuc 0)
          (record f {
            file = some (pos 0);
            res = record f.res { size = pos 0 };
            size_unknown = true;
            if_range = [];
            validator_pinned = false;
          })
          (record { same_conn = refl; same_fallback = refl; same_range = refl }))

  -- the response has to have the size that is known
  of_known_size : Tried
  of_known_size =
      if leb_ℤ (pos 0) r.content_length && not (eq_ℤ r.content_length f.res.size)
      then refused f invalid_range_response
      else start_body f.res.size (pos 0) f

  known_cases : P of_known_size
  unfolding of_known_size
  known_cases =
      if_both P (leb_ℤ (pos 0) r.content_length && not (eq_ℤ r.content_length f.res.size))
        (refused f invalid_range_response) (start_body f.res.size (pos 0) f)
        (refuses invalid_range_response) (accepts f.res.size f (like f))

  pub accept_full_cases : (restart : Bool) → P (accept_full env restart r f)
  unfolding of_known_size
  accept_full_cases restart =
      let any_size : Tried = start_body (negsuc 0) (pos 0) f in
      let resized : Tried =
        resize_sequential_resource env r.content_length (start_body r.content_length (pos 0)) f in
      let unknown : Tried =
        begin_unknown_size_sequential_resource env (start_body (negsuc 0) (pos 0)) f in
      let fresh : Tried = if leb_ℤ (pos 0) r.content_length then resized else unknown in
      let old : Tried = if ltb_ℤ (pos 0) f.res.size then of_known_size else any_size in
      let any = accepts (negsuc 0) f (like f) in
      if_both P f.res.range any_size (if restart then fresh else old) any (
        if_both P restart fresh old
          (if_both P (leb_ℤ (pos 0) r.content_length) resized unknown resized_cases unknown_cases)
          (if_both P (ltb_ℤ (pos 0) f.res.size) of_known_size any_size known_cases any))

module _ (P : Tried → Type 0) (env : Environment) (p : Plan) (f : Fetch) where
  pub ignore_range_cases :
      (r : Response)
      → ((e : FetchError) → P (refused f e))
      → P (accept_full env true r (sequential r.validator f))
      → (p.resume_probe ≡ false → f.res.range ≡ false → P (accept_full env true r f))
      → P (ignore_range env p r f)
  ignore_range_cases r refuses first here =
      let fallback : Tried =
        if not (f.conn.id == 0) || not (f.connections == 1)
        then refused f range_request_ignored
        else accept_full env true r (sequential r.validator f) in
      if_cases P p.resume_probe (accept_full env true r (sequential r.validator f))
        (if not f.res.range then accept_full env true r f else fallback) (λ _. first)
        (λ probe.
          if_cases P (not f.res.range) (accept_full env true r f) fallback
            (λ n. here probe (ground (arith, n)))
            (λ n.
              if_both P (not (f.conn.id == 0) || not (f.connections == 1))
                (refused f range_request_ignored)
                (accept_full env true r (sequential r.validator f)) (refuses range_request_ignored)
                first))

  pub take_over_cases :
      (expected : ℤ)
      → ((e : FetchError) → P (refused (record f { resolve_fallback = false }) e))
      → (takes_over f ≡ false → P (accept_range p expected (pos 0) f))
      → (takes_over f ≡ true
          → P (accept_range p expected (env.prefetched -ℤ p.start) (taken_over env p.start f)))
      → P (take_over env p expected f)
  take_over_cases expected refuses keep take =
      let outside = ltb_ℤ env.prefetched p.start || ltb_ℤ f.res.size env.prefetched in
      let lost : Tried = refused (record f { resolve_fallback = false }) other_error in
      let next = accept_range p expected (env.prefetched -ℤ p.start) (taken_over env p.start f) in
      if_cases P (not (takes_over f)) (accept_range p expected (pos 0) f)
        (if outside then lost else next) (λ n. keep (ground (arith, n)))
        (λ n. if_both P outside lost next (refuses other_error) (take (ground (arith, n))))

-- the chunk that an open-ended response has given its end
abbrev pub opened : ℤ → Fetch → Fetch
opened total f = record f {
  file = some total;
  res = record f.res { size = total };
  conn = record f.conn { chunk = set_end f.conn.chunk (total -ℤ pos 1) };
}

module _ (P : Tried → Type 0) (env : Environment) (p : Plan)
    (refuses : (e : FetchError) → P (refused p.fetch e)) where
  pub accept_partial_cases :
      (o : Option (ℤ × ℤ))
      → ((expected total : ℤ) → P (take_over env p expected (opened total p.fetch)))
      → ((expected : ℤ) → P (take_over env p expected p.fetch))
      → P (accept_partial env p o)
  accept_partial_cases none ends keep = refuses invalid_range_response
  accept_partial_cases (some (expected, total)) ends keep =
      let next = take_over env p expected in
      let then_open = λ (f' : Fetch). next (record f' {
        res = record f'.res { size = total };
        conn = record f'.conn { chunk = set_end f'.conn.chunk (total -ℤ pos 1) };
      }) in
      if_both P (p.fetch.res.range && open_ended p.fetch.conn.chunk)
        (resolve_open_ended_range env total next p.fetch) (next p.fetch)
        (if_both P (leb_ℤ total (pos 0)) (refused p.fetch invalid_range_response)
          (truncate env total then_open p.fetch) (refuses invalid_range_response)
          (truncate_cases P p.fetch refuses env total then_open (ends expected total)))
        (keep expected)

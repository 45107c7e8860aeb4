-- ===== src/Http/Completion/Verdict.antt =====
-- How a download ends, for every state of its connections.
use pony_downloader.Common.{
  ◌≡◌, refl, Bool, true, false, not, ◌&&◌, List, [], ◌∷◌, Option, none, some, arith, count,
  if◌then◌else◌, Bool-cases, Option-cases, ◌⊎◌, inl, inr, ◌+◌, ◌≤◌, ap, ◌∙◌, ℤ, pos, pos_part,
  neg_part, ◌+ℤ◌, ◌≤ℤ◌, ltb_ℤ, ◌||◌, +ℤ_parts, -ℤ_parts,
}
use pony_downloader.Http.Connection.{
  Connection, is_forbidden, is_terminal_range_error, open_ended, remain,
}
use pony_downloader.Http.Split.Coverage.{remain_lem}
use pony_downloader.Http.Completion.{
  Resource, total_downloaded, is_completed, has_failed, is_refused, is_short, all_chunks_complete,
  download_complete, integrity_failure, other_failure, FetcherState, state_done, state_error,
  on_download_complete,
}

-- The connection ended in an integrity error.
abbrev pub is_corrupt : Connection → Bool
is_corrupt c = has_failed c && is_terminal_range_error c.last_err

integrity_failure-none :
    (cs : List Connection) → count is_corrupt cs ≡ 0 → integrity_failure cs ≡ none
unfolding integrity_failure
integrity_failure-none [] h = refl
integrity_failure-none (c ∷ cs) h = elim (Bool-cases (is_corrupt c)) [
  | inl e ↦ absurd (ground (arith, h, e))
  | inr e ↦ rw (e, integrity_failure) (integrity_failure-none cs (ground (arith, h, e)))
]

-- The chunks that the loop holds against completion.
abbrev pub is_missing : Resource → Connection → Bool
is_missing res c = is_short res c && not (is_refused c)

all_chunks_complete-count :
    (res : Resource) (cs : List Connection)
    → all_chunks_complete res cs ≡ true
    → count (is_missing res) cs ≡ 0
unfolding all_chunks_complete
all_chunks_complete-count res [] h = refl
all_chunks_complete-count res (c ∷ cs) h = elim (Bool-cases (is_missing res c)) [
  | inl e ↦ absurd (ground (arith, h, e))
  | inr e ↦ rw e (omega (arith, all_chunks_complete-count res cs (ground (arith, h, e))))
]

missing_none :
    (res : Resource) (cs : List Connection)
    → count (is_missing res) cs ≡ 0
    → all_chunks_complete res cs ≡ true
unfolding all_chunks_complete
missing_none res [] h = refl
missing_none res (c ∷ cs) h = elim (Bool-cases (is_missing res c)) [
  | inl e ↦ absurd (ground (arith, h, e))
  | inr e ↦ rw (e, all_chunks_complete) (missing_none res cs (ground (arith, h, e)))
]

and_not : (a b : Bool) → a && not b ≡ false → a ≡ (a && b)
and_not true true h = refl
and_not true false h = absurd (ground (arith, h))
and_not false b h = refl

and_false : (b : Bool) → (b && false) ≡ false
and_false true = refl
and_false false = refl

other_failure-count :
    (cs : List Connection) → other_failure cs ≡ none → count has_failed cs ≡ count is_refused cs
unfolding other_failure
other_failure-count [] h = refl
other_failure-count (c ∷ cs) h = elim (Bool-cases (has_failed c && not (is_forbidden c.last_err))) [
  | inl e ↦ absurd (ground (arith, h, e))
  | inr e ↦
      ap (λ b. (if b then 1 else 0) + count has_failed cs) (and_not _ _ e)
      ∙ ap (λ n. (if is_refused c then 1 else 0) + n)
          (other_failure-count cs (ground (arith, h, e)))
]

-- A connection for a range that the server refuses does not count: when no connection ended in an
-- integrity error and every connection that is short was refused with a 403, the download is
-- reported as done, however many bytes are missing.
pub refused_is_done :
    (res : Resource) (r : Option Connection) (cs : List Connection)
    → count is_corrupt cs ≡ 0
    → count (is_missing res) cs ≡ 0
    → on_download_complete res r cs ≡ state_done
unfolding on_download_complete
refused_is_done res r cs i m =
    rw
      (
        integrity_failure-none cs i,
        missing_none res cs m,
        and_false (not (download_complete res r cs)),
        on_download_complete,
      )
      refl

short_counted :
    (res : Resource) (cs : List Connection)
    → count (is_short res) cs ≤ count (is_missing res) cs + count is_refused cs
short_counted res [] = omega arith
short_counted res (c ∷ cs) = elim (Bool-cases (is_short res c)) [
  | inl s ↦ elim (Bool-cases (is_refused c)) [
    | inl f ↦ rw (s, f) (omega (arith, short_counted res cs))
    | inr f ↦ rw (s, f) (omega (arith, short_counted res cs))
  ]
  | inr s ↦ rw s (omega (arith, short_counted res cs))
]

abbrev pub is_done : FetcherState → Bool
is_done state_done = true
is_done (state_error c) = false

fails :
    (res : Resource) (r : Option Connection) (cs : List Connection) (x : Connection)
    → download_complete res r cs ≡ false
    → all_chunks_complete res cs ≡ false
    → other_failure cs ≡ some x
    → is_done (on_download_complete res r cs) ≡ false
unfolding on_download_complete
fails res r cs x d a o = elim (Option-cases (integrity_failure cs)) [
  | inl i ↦ rw (i, d, a, o, on_download_complete) refl
  | inr i ↦ rw (i.1, on_download_complete) refl
]

-- The connection has fetched all that it was to fetch: in range mode its chunk to the end, else the
-- whole of a resource whose size is known.
pub record HasFetched (res : Resource) (c : Connection) : Type 0 where
  pub chunk_end :
      res.range ≡ true
      → (last : ℤ) × (c.chunk.end ≡ some last)
        × (last +ℤ pos 1 ≤ℤ c.chunk.begin +ℤ c.chunk.downloaded)
  pub whole : res.range ≡ false → (pos 1 ≤ℤ res.size) × (res.size ≤ℤ c.downloaded)

abbrev pub IsServed : Resource → List Connection → Type 0
IsServed res [] = Unit
IsServed res (c ∷ cs) = ((is_completed c ≡ true) ⊎ HasFetched res c) × IsServed res cs

fetched_range :
    (c : Connection)
    → open_ended c.chunk || ltb_ℤ (pos 0) (remain c.chunk) ≡ false
    → (last : ℤ) × (c.chunk.end ≡ some last)
      × (last +ℤ pos 1 ≤ℤ c.chunk.begin +ℤ c.chunk.downloaded)
fetched_range c h = elim (Option-cases c.chunk.end) [
  | inl e ↦ absurd (ground (arith, h, ap is_open e))
  | inr (last, e) ↦ (
    last,
    e,
    omega (
      arith,
      +ℤ_parts,
      -ℤ_parts,
      not_positive (open_ended c.chunk) (remain c.chunk) h,
      ap pos_part (remain_lem c.chunk last e),
      ap neg_part (remain_lem c.chunk last e),
    ),
  )
]
  where
    is_open : Option ℤ → Bool
    is_open o = elim o [ none ↦ true | some e ↦ false ]

    not_positive : (b : Bool) (r : ℤ) → b || ltb_ℤ (pos 0) r ≡ false → r ≤ℤ pos 0
    not_positive b r h = ground (arith, h)

-- A connection that waits for no byte has completed or has fetched its bytes.
served :
    (res : Resource) (c : Connection)
    → is_short res c ≡ false
    → (is_completed c ≡ true) ⊎ HasFetched res c
served res c h = elim (Bool-cases (is_completed c)) [
  | inl e ↦ inl e
  | inr e ↦ elim (Bool-cases res.range) [
    | inl r ↦ inr (record {
      chunk_end = λ _. fetched_range c (ground (arith, h, e, r));
      whole = λ n. absurd (ground (arith, r, n));
    })
    | inr r ↦ inr (record {
      chunk_end = λ n. absurd (ground (arith, r, n));
      whole = λ _. (ground (arith, h, e, r), ground (arith, h, e, r));
    })
  ]
]

all-IsServed :
    (res : Resource) (cs : List Connection) → count (is_short res) cs ≡ 0 → IsServed res cs
all-IsServed res [] h = tt
all-IsServed res (c ∷ cs) h =
    (served res c (ground (arith, h)), all-IsServed res cs (omega (arith, h)))

-- Where the server refuses no connection with a 403, a download reported as done has a size that is
-- known and fetched at least as many bytes, or each connection completed or has fetched its chunk to the
-- end (outside range mode: the whole resource), or no connection failed.
pub done_lem :
    (res : Resource) (r : Option Connection) (cs : List Connection)
    → count is_refused cs ≡ 0
    → on_download_complete res r cs ≡ state_done
    → ((pos 1 ≤ℤ res.size) × (res.size ≤ℤ total_downloaded r cs))
      ⊎ (IsServed res cs ⊎ (count has_failed cs ≡ 0))
done_lem res r cs f h = elim (Bool-cases (download_complete res r cs)) [
  | inl d ↦ inl (ground (arith, d), ground (arith, d))
  | inr d ↦ elim (Bool-cases (all_chunks_complete res cs)) [
    | inl a ↦ inr (
        inl (
          all-IsServed res cs
            (omega (arith, f, short_counted res cs, all_chunks_complete-count res cs a))))
    | inr a ↦ elim (Option-cases (other_failure cs)) [
      | inl o ↦ inr (inr (omega (arith, f, other_failure-count cs o)))
      | inr o ↦ absurd (ground (arith, fails res r cs o.0 d a o.1, ap is_done h))
    ]
  ]
]

integrity_failure-count :
    (cs : List Connection) → integrity_failure cs ≡ none → count is_corrupt cs ≡ 0
unfolding integrity_failure
integrity_failure-count [] h = refl
integrity_failure-count (c ∷ cs) h = elim (Bool-cases (is_corrupt c)) [
  | inl e ↦ absurd (ground (arith, h, e))
  | inr e ↦ rw e (omega (arith, integrity_failure-count cs (ground (arith, h, e))))
]

-- A connection that ended in an integrity error makes the download fail, whatever the byte counts
-- and the other connections say.
pub integrity_wins :
    (res : Resource) (r : Option Connection) (cs : List Connection)
    → 1 ≤ count is_corrupt cs
    → is_done (on_download_complete res r cs) ≡ false
unfolding on_download_complete
integrity_wins res r cs h = elim (Option-cases (integrity_failure cs)) [
  | inl i ↦ absurd (omega (arith, h, integrity_failure-count cs i))
  | inr i ↦ rw (i.1, on_download_complete) refl
]

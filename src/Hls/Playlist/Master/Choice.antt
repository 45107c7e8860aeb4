-- ===== src/Hls/Playlist/Master/Choice.antt =====
-- The variant that is chosen, and the audio it would lack.
use pony_downloader.Common.{
  ℤ, ltb_ℤ, ◌≤ℤ◌, true, false, List, [], ◌∷◌, ◌++◌, Option, some, ◌≡◌, refl, ap, ◌∙◌, arith,
  append_assoc, append-nil, if_cases, subst, sym,
}
use pony_downloader.Hls.Playlist.Master.{Variant, pick_from, pick_best_variant}

abbrev pub AllBelow : ℤ → List Variant → Type 0
AllBelow b [] = Unit
AllBelow b (v ∷ vs) = (ltb_ℤ v.bandwidth b ≡ true) × AllBelow b vs

abbrev pub AllAtMost : ℤ → List Variant → Type 0
AllAtMost b [] = Unit
AllAtMost b (v ∷ vs) = (v.bandwidth ≤ℤ b) × AllAtMost b vs

-- The first variant of the largest bandwidth.
pub record IsFirstBest (best : Variant) (vs : List Variant) : Type 0 where
  pub before : List Variant
  pub after : List Variant
  pub place : vs ≡ before ++ best ∷ after
  pub below : AllBelow best.bandwidth before
  pub at_most : AllAtMost best.bandwidth after

AllBelow-append :
    (b : ℤ) (vs ws : List Variant) → AllBelow b vs → AllBelow b ws → AllBelow b (vs ++ ws)
AllBelow-append b [] ws h k = k
AllBelow-append b (v ∷ vs) ws h k = (h.0, AllBelow-append b vs ws h.1 k)

AllAtMost-append :
    (b : ℤ) (vs ws : List Variant) → AllAtMost b vs → AllAtMost b ws → AllAtMost b (vs ++ ws)
AllAtMost-append b [] ws h k = k
AllAtMost-append b (v ∷ vs) ws h k = (h.0, AllAtMost-append b vs ws h.1 k)

AllBelow-trans : (a b : ℤ) (vs : List Variant) → ltb_ℤ a b ≡ true → AllAtMost a vs → AllBelow b vs
AllBelow-trans a b [] l h = tt
AllBelow-trans a b (v ∷ vs) l h = (ground (arith, h), AllBelow-trans a b vs l h.1)

AllBelow-weaken : (a b : ℤ) (vs : List Variant) → ltb_ℤ a b ≡ true → AllBelow a vs → AllBelow b vs
AllBelow-weaken a b [] l h = tt
AllBelow-weaken a b (v ∷ vs) l h = (ground (arith, h), AllBelow-weaken a b vs l h.1)

all_below :
    (best v : Variant) (seen : List Variant)
    → ltb_ℤ best.bandwidth v.bandwidth ≡ true
    → IsFirstBest best seen
    → AllBelow v.bandwidth seen
all_below best v seen l h = subst (AllBelow v.bandwidth) (sym h.place) (
    AllBelow-append v.bandwidth h.before (best ∷ h.after)
      (AllBelow-weaken best.bandwidth v.bandwidth h.before l h.below)
      (l, AllBelow-trans best.bandwidth v.bandwidth h.after l h.at_most))

-- one variant more, which is better
take_better :
    (best v : Variant) (seen : List Variant)
    → ltb_ℤ best.bandwidth v.bandwidth ≡ true
    → IsFirstBest best seen
    → IsFirstBest v (seen ++ v ∷ [])
take_better best v seen l h = record {
  before = seen;
  after = [];
  place = refl;
  below = all_below best v seen l h;
  at_most = tt;
}

-- one variant more, which is not
keep_best :
    (best v : Variant) (seen : List Variant)
    → ltb_ℤ best.bandwidth v.bandwidth ≡ false
    → IsFirstBest best seen
    → IsFirstBest best (seen ++ v ∷ [])
keep_best best v seen l h = record {
  before = h.before;
  after = h.after ++ v ∷ [];
  place = ap (λ l. l ++ v ∷ []) h.place ∙ append_assoc h.before (best ∷ h.after) (v ∷ []);
  below = h.below;
  at_most = AllAtMost-append best.bandwidth h.after (v ∷ []) h.at_most (ground (arith, l), tt);
}

FoundIn : Option Variant → List Variant → Type 0
FoundIn o vs = (b : Variant) × (o ≡ some b) × IsFirstBest b vs

-- What the loop keeps, whatever follows.
pick_from_lem :
    (best : Variant) (seen vs : List Variant)
    → IsFirstBest best seen
    → FoundIn (pick_from (some best) vs) (seen ++ vs)
unfolding FoundIn
pick_from_lem best seen [] h = (best, refl, subst (IsFirstBest best) (sym (append-nil seen)) h)
pick_from_lem best seen (v ∷ vs) h =
    subst (FoundIn (pick_from (some best) (v ∷ vs))) (append_assoc seen (v ∷ []) vs) (
      if_cases (λ o. FoundIn (pick_from o vs) ((seen ++ v ∷ []) ++ vs))
        (ltb_ℤ best.bandwidth v.bandwidth) (some v) (some best)
        (λ l. pick_from_lem v (seen ++ v ∷ []) vs (take_better best v seen l h))
        (λ l. pick_from_lem best (seen ++ v ∷ []) vs (keep_best best v seen l h)))

-- Of one variant or more the first of the largest bandwidth is chosen.
pub pick_best_variant_lem :
    (v : Variant) (vs : List Variant)
    → (b : Variant) × (pick_best_variant (v ∷ vs) ≡ some b) × IsFirstBest b (v ∷ vs)
unfolding pick_best_variant FoundIn
pick_best_variant_lem v vs =
    pick_from_lem v (v ∷ []) vs
      (record { before = []; after = []; place = refl; below = tt; at_most = tt })

-- ===== src/Http/Transfer/Exact.antt =====
-- What is in the file after any interleaving of the steps.
use pony_downloader.Common.{ℕ, suc, ◌≡◌, ℤ, pos, ◌≤ℤ◌, List, [], ◌∷◌, some}
use pony_downloader.Http.Connection.{Connection, remain}
use pony_downloader.Http.Transfer.{Transfer, Phase, at_rest}

-- Every connection has finished its chunk, and its goroutine has nothing to write or to count.
abbrev pub AllFinished : (ℕ → Phase) → List Connection → Type 0
AllFinished phases [] = Unit
AllFinished phases (c ∷ cs) =
    ((phases 0 ≡ at_rest) × (last : ℤ) × (c.chunk.end ≡ some last) × (remain c.chunk ≤ℤ pos 0))
    × AllFinished (λ i. phases (suc i)) cs

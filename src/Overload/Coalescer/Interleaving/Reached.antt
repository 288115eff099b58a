-- ===== src/Overload/Coalescer/Interleaving/Reached.antt =====
-- overload/coalescer.go: how far offers that overlap fill the coalescer.
use go_wsc.Base.{ℕ, ◌≤◌, ◌++◌, replicate, nat_eq, string_eq, pair_eq}
use go_wsc.Base.Int.{pos}
use go_wsc.Overload.Coalescer.Interleaving.{passed, wrote, World, Run, empty}

-- `p` offers have passed the test and `q` have written, none of which is counted.
abbrev lined : ℕ → ℕ → ℕ → ℕ → World
lined c e p q = record {
  entries = e;
  size = pos c;
  threads = replicate p passed ++ replicate q wrote;
}

module _ (cap most : ℕ) (some_offer : 1 ≤ most) where
  abbrev Reached : World → Type 0
  Reached w = (n : ℕ) × Run cap most empty n w

-- ===== src/Overload/Coalescer/Interleaving.antt =====
-- overload/coalescer.go: the atomic steps of Offer under new keys and of Drain, in any order. The
-- size is read and the entry written under the lock of one of 16 shards, and the size is added to
-- after the unlock, so that calls on other shards come between. `Offer` and `Flush` of
-- overload/aggregator.go use their counter of groups in the same way: `groupCount` is read at line 126
-- and added to at line 133, and `Flush` takes 1 off it after each deletion.
pub mod Bound
pub mod Reached
pub mod Refines
use go_wsc.Base.{[], ℕ, suc, ◌+◌, ◌-◌, ◌≤◌, ◌≡◌, List, ◌∷◌, ◌++◌, nat_eq, string_eq, pair_eq, total}
use go_wsc.Base.Int.{ℤ, pos, ◌+ℤ◌, ◌-ℤ◌, ◌<ℤ◌, int64}

-- An offer between its test and its write, one between its write and its count, and a drain that has
-- taken `n` entries and not yet counted them off.
pub data Thread : Type 0 where
  passed : Thread
  wrote : Thread
  taken : (n : ℕ) → Thread

pub record World : Type 0 where
  pub entries : ℕ
  pub size : ℤ
  pub threads : List Thread

-- The test found room.
abbrev pub pass_test : World → World
pass_test w = record w { threads = passed ∷ w.threads }

-- `shard.slots[key] = msg`, for a key that was absent.
abbrev pub write_entry : World → List Thread → List Thread → World
write_entry w before after = record w { entries = suc w.entries; threads = before ++ wrote ∷ after }

-- `c.size.Add(1)`.
abbrev pub count_entry : World → List Thread → World
count_entry w rest = record w { size = int64 (w.size +ℤ pos 1); threads = rest }

abbrev pub start_drain : World → World
start_drain w = record w { threads = taken 0 ∷ w.threads }

-- The drain empties a shard of `k` entries.
abbrev pub take_entries : ℕ → ℕ → World → List Thread → List Thread → World
take_entries n k w before after = record w {
  entries = w.entries - k;
  threads = before ++ taken (n + k) ∷ after;
}

-- `c.size.Add(-int64(total))`.
abbrev pub count_taken : ℕ → World → List Thread → World
count_taken n w rest = record w { size = int64 (w.size -ℤ pos n); threads = rest }

pub data Step (cap : ℕ) : World → World → Type 0 where
  tests : (w : World) → w.size <ℤ pos cap → Step cap w (pass_test w)
  writes :
      (w : World) (before after : List Thread)
      → w.threads ≡ before ++ passed ∷ after
      → Step cap w (write_entry w before after)
  counts :
      (w : World) (before after : List Thread)
      → w.threads ≡ before ++ wrote ∷ after
      → Step cap w (count_entry w (before ++ after))
  drains : (w : World) → Step cap w (start_drain w)
  takes :
      (n k : ℕ) (w : World) (before after : List Thread)
      → w.threads ≡ before ++ taken n ∷ after
      → k ≤ w.entries
      → Step cap w (take_entries n k w before after)
  counts_off :
      (n : ℕ) (w : World) (before after : List Thread)
      → w.threads ≡ before ++ taken n ∷ after
      → Step cap w (count_taken n w (before ++ after))

abbrev pub has_passed : Thread → ℕ
has_passed passed = 1
has_passed wrote = 0
has_passed (taken n) = 0

abbrev pub owes_add : Thread → ℕ
owes_add passed = 0
owes_add wrote = 1
owes_add (taken n) = 0

abbrev pub owes_sub : Thread → ℕ
owes_sub passed = 0
owes_sub wrote = 0
owes_sub (taken n) = n

-- The offers under new keys that have passed the test and are not counted yet.
abbrev pub under_way : World → ℕ
under_way w = total has_passed w.threads + total owes_add w.threads

-- At no time are more than `most` of these offers under way.
pub data Run (cap most : ℕ) : World → ℕ → World → Type 0 where
  start : (w : World) → Run cap most w 0 w
  next :
      (u v w : World) (n : ℕ)
      → Run cap most u n v
      → Step cap v w
      → under_way w ≤ most
      → Run cap most u (suc n) w

abbrev pub empty : World
empty = record { entries = 0; size = pos 0; threads = [] }

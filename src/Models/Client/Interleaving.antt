-- ===== src/Models/Client/Interleaving.antt =====
-- models/client.go: the atomic steps of TrySend, CompletePendingWrites and MarkClosed, in any order. A
-- call changes the connection's own counter in one step and the shared counter in another; between the
-- two it is a thread that owes the second.
use go_wsc.Base.{
  ℕ, suc, ◌+◌, ◌≤◌, ◌<◌, ◌≡◌, List, ◌∷◌, ◌++◌, map, if◌then◌else◌, nat_eq, string_eq, pair_eq,
  length, get_or, set, total,
}
use go_wsc.Base.Int.{ℤ, pos, ◌+ℤ◌, ◌-ℤ◌, ltb_ℤ, int64}

pub data Thread : Type 0 where
  adding : Thread
  subtracting : ℕ → Thread

pub record World : Type 0 where
  pub pendings : List ℤ
  pub counter : ℤ
  pub threads : List Thread

abbrev pub pending_at : ℕ → World → ℤ
pending_at i w = get_or w.pendings i (pos 0)

-- `c.pendingWrites.Add(1)` of TrySend on the connection `i`.
abbrev pub reserve_at : ℕ → World → World
reserve_at i w = record w {
  pendings = set w.pendings i (int64 (pending_at i w +ℤ pos 1));
  threads = adding ∷ w.threads;
}

-- `counter.Add(1)` of TrySend.
abbrev pub count_one : World → List Thread → World
count_one w rest = record w { counter = int64 (w.counter +ℤ pos 1); threads = rest }

-- The exchange of CompletePendingWrites that succeeds.
abbrev pub take_at : ℕ → ℕ → World → World
take_at i take w = record w {
  pendings = set w.pendings i (int64 (pending_at i w -ℤ pos take));
  threads = subtracting take ∷ w.threads;
}

-- `counter.Add(-take)` of CompletePendingWrites.
abbrev pub count_off : ℕ → World → List Thread → World
count_off take w rest = record w { counter = int64 (w.counter -ℤ pos take); threads = rest }

-- What is taken is the smaller of `n` and what is pending, when that is a positive number.
pub data Step : World → World → Type 0 where
  reserves : (i : ℕ) (w : World) → i < length w.pendings → Step w (reserve_at i w)
  counts :
      (w : World) (before after : List Thread)
      → w.threads ≡ before ++ adding ∷ after
      → Step w (count_one w (before ++ after))
  takes :
      (i n take : ℕ) (w : World)
      → i < length w.pendings
      → (if ltb_ℤ (pending_at i w) (pos n) then pending_at i w else pos n) ≡ pos take
      → 0 < take
      → Step w (take_at i take w)
  counts_off :
      (take : ℕ) (w : World) (before after : List Thread)
      → w.threads ≡ before ++ subtracting take ∷ after
      → Step w (count_off take w (before ++ after))

pub data Run : World → ℕ → World → Type 0 where
  start : (w : World) → Run w 0 w
  next : (u v w : World) (n : ℕ) → Run u n v → Step v w → Run u (suc n) w

abbrev pub owes_add : Thread → ℕ
owes_add adding = 1
owes_add (subtracting t) = 0

abbrev pub owes_sub : Thread → ℕ
owes_sub adding = 0
owes_sub (subtracting t) = t

abbrev pub count : ℕ → ℕ
count x = x

-- The connections own `owned` frames, which the shared counter counts, but for what the threads owe.
pub record IsBalanced (n : ℕ) (w : World) : Type 0 where
  pub owned : List ℕ
  pub reads : w.pendings ≡ map pos owned
  pub balance :
      w.counter
      ≡ pos (total count owned + total owes_sub w.threads) -ℤ pos (total owes_add w.threads)
  pub small : total count owned + total owes_sub w.threads ≤ n
  pub few : total owes_add w.threads ≤ n

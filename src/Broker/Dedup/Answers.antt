-- ===== src/Broker/Dedup/Answers.antt =====
-- broker/dedup.go: what `Seen` answers and `Unmark` undoes.
use go_wsc.Base.{
  ℕ, suc, ◌+◌, ◌-◌, ◌*◌, ◌≤◌, ◌<◌, String, ◌≡◌, refl, inl, inr, Bool, true, false, ◌&&◌, some,
  arith, ltb, leb, eqb, if◌then◌else◌, Bool-cases, nat_eq, string_eq, pair_eq, ◌==◌, agrees_refl,
  length-set,
}
use go_wsc.Base.Map
use go_wsc.Base.Map.{Map}
use go_wsc.Broker.Dedup.{DedupShard, DedupWindow, shard_of, set_shard, mark, seen, unmark}
use go_wsc.Broker.Dedup.Slices.{horizon-set_shard}
use go_wsc.Broker.Dedup.Horizon.{IsTuned, CaughtUp, catch_up-CaughtUp, horizon}

-- The window `e` and the answer `first` of `Seen` for the key at the time.
pub record Answered (key : String) (now : ℕ) (d e : DedupWindow) (first : Bool) : Type 0 where
  pub tuned : IsTuned e
  pub period : e.rollover ≡ d.rollover
  pub started : e.last_swap ≤ now
  pub current : now < e.last_swap + e.rollover
  pub answer : first ≡ leb (horizon key d) now
  pub remembered :
      (j : String)
      → horizon j e ≡ (
          if key == j && first
          then e.last_swap + 2 * e.rollover
          else if ltb now (horizon j d)
          then horizon j d
          else 0)

set_shard-IsTuned :
    (key : String) (s : DedupShard) (d : DedupWindow) → IsTuned d → IsTuned (set_shard key s d)
unfolding set_shard
set_shard-IsTuned key s d t = record {
  sharded = rw length-set t.sharded;
  counted = rw length-set t.counted;
  rolls = t.rolls;
}

-- What `mark` does to a window that is up to date.
mark-answer : (key : String) (d : DedupWindow) → IsTuned d → (mark key d).1 ≡ eqb (horizon key d) 0
unfolding mark horizon
mark-answer key d t = elim (Bool-cases (Map.has key (shard_of key d).active)) [
  | inl a ↦ rw a (ground (arith, t.rolls))
  | inr a ↦ rw a (elim (Bool-cases (Map.has key (shard_of key d).prev)) [
    | inl p ↦ rw p (ground (arith, t.rolls))
    | inr p ↦ rw p refl
  ])
]

-- The shard of a key with the key in its active generation.
abbrev with_key : String → DedupShard → DedupShard
with_key key s = record s { active = Map.insert key tt s.active }

horizon-with_key :
    (key j : String) (d : DedupWindow)
    → IsTuned d
    → horizon j (set_shard key (with_key key (shard_of key d)) d)
      ≡ (if key == j then d.last_swap + 2 * d.rollover else horizon j d)
horizon-with_key key j d t = elim (Bool-cases (key == j)) [
  | inl same ↦
      rw (horizon-set_shard key j (with_key key (shard_of key d)) d t (λ o. absurd (cc (same, o))))
        (rw (same, Map.has-insert, same) refl)
  | inr other ↦
      rw
        (horizon-set_shard key j (with_key key (shard_of key d)) d t
          (λ o. (rw (Map.has-insert, other) refl, refl)))
        (rw other refl)
]

mark-horizon :
    (key j : String) (d : DedupWindow)
    → IsTuned d
    → horizon j (mark key d).0
      ≡ (if key == j && (mark key d).1 then d.last_swap + 2 * d.rollover else horizon j d)
unfolding mark
mark-horizon key j d t = elim (Bool-cases (Map.has key (shard_of key d).active)) [
  | inl a ↦ rw a (ground arith)
  | inr a ↦ rw a (elim (Bool-cases (Map.has key (shard_of key d).prev)) [
    | inl p ↦ rw p (ground arith)
    | inr p ↦ rw p (rw (horizon-with_key key j d t) (ground arith))
  ])
]

mark-IsTuned : (key : String) (d : DedupWindow) → IsTuned d → IsTuned (mark key d).0
unfolding mark
mark-IsTuned key d t = elim (Bool-cases (Map.has key (shard_of key d).active)) [
  | inl a ↦ rw a t
  | inr a ↦ rw a (elim (Bool-cases (Map.has key (shard_of key d).prev)) [
    | inl p ↦ rw p t
    | inr p ↦ rw p (set_shard-IsTuned key (with_key key (shard_of key d)) d t)
  ])
]

mark-clock :
    (key : String) (d : DedupWindow)
    → ((mark key d).0.last_swap ≡ d.last_swap) × ((mark key d).0.rollover ≡ d.rollover)
unfolding mark set_shard
mark-clock key d = ground arith

mark-Answered :
    (key : String) (now : ℕ) (d e : DedupWindow)
    → CaughtUp now d e
    → Answered key now d (mark key e).0 (mark key e).1
mark-Answered key now d e c = record {
  tuned = mark-IsTuned key e c.tuned;
  period = rw (mark-clock key e).1 c.period;
  started = rw (mark-clock key e).0 c.started;
  current = rw ((mark-clock key e).0, (mark-clock key e).1) c.current;
  answer = ground (arith, mark-answer key e c.tuned, c.kept key);
  remembered = λ j.
      rw ((mark-clock key e).0, (mark-clock key e).1, mark-horizon key j e c.tuned, c.kept j) refl;
}

-- Over a window with shards and a period, at a time that is not before its last swap, Seen returns;
-- it answers that a key is new exactly when the time until which the key was remembered is over. A
-- new key is then remembered for two periods from the last swap, which lies less than a period
-- back, and every other key for as long as before.
pub seen-Answered :
    (key : String) (now : ℕ) (d : DedupWindow)
    → IsTuned d
    → d.last_swap ≤ now
    → (e : DedupWindow) × (first : Bool) × (seen key now d ≡ some (e, first))
      × Answered key now d e first
unfolding seen
seen-Answered key now d t s =
    let (e, q, c) = catch_up-CaughtUp (suc (now - d.last_swap)) now d t s (omega arith) in
    ((mark key e).0, (mark key e).1, rw q refl, mark-Answered key now d e c)

abbrev without : String → DedupShard → DedupShard
without key s = record { active = Map.erase key s.active; prev = Map.erase key s.prev }

-- A key whose mark is taken back is remembered no more, and every other key as long as before.
pub unmark-horizon :
    (key j : String) (d : DedupWindow)
    → IsTuned d
    → horizon j (unmark key d) ≡ (if key == j then 0 else horizon j d)
unfolding unmark
unmark-horizon key j d t = elim (Bool-cases (key == j)) [
  | inl same ↦
      rw (horizon-set_shard key j (without key (shard_of key d)) d t (λ o. absurd (cc (same, o)))) (
        rw (Map.has-erase key j (shard_of key d).active, Map.has-erase key j (shard_of key d).prev)
          (rw same refl))
  | inr other ↦
      rw
        (horizon-set_shard key j (without key (shard_of key d)) d t (λ o. (
          rw (Map.has-erase key j (shard_of key d).active, other) refl,
          rw (Map.has-erase key j (shard_of key d).prev, other) refl,
        )))
        (rw other refl)
]

pub unmark-IsTuned : (key : String) (d : DedupWindow) → IsTuned d → IsTuned (unmark key d)
unfolding unmark
unmark-IsTuned key d t = set_shard-IsTuned key _ d t

pub unmark-last_swap : (key : String) (d : DedupWindow) → (unmark key d).last_swap ≡ d.last_swap
unfolding unmark set_shard
unmark-last_swap key d = refl

pub Answered-old :
    (key : String) (now : ℕ) (d e : DedupWindow) (first : Bool)
    → Answered key now d e first
    → now < horizon key d
    → first ≡ false
Answered-old key now d e first a h = rw a.answer (ground arith)

pub Answered-new :
    (key : String) (now : ℕ) (d e : DedupWindow) (first : Bool)
    → Answered key now d e first
    → horizon key d ≤ now
    → (first ≡ true) × (now + d.rollover < horizon key e)
Answered-new key now d e first a h =
    let new : first ≡ true = rw a.answer (ground arith) in
    (new, ground (arith, new, a.remembered key, a.current, a.period, agrees_refl key))

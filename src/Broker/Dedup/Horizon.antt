-- ===== src/Broker/Dedup/Horizon.antt =====
-- broker/dedup.go: until when the window remembers a key.
use go_wsc.Base.{
  ℕ, zero, suc, ◌+◌, ◌*◌, ◌^◌, ◌≤◌, ◌<◌, String, ◌≡◌, refl, ap, ◌⊎◌, inl, inr, Bool, true, false,
  some, List, [], ◌∷◌, map, arith, ltb, leb, if◌then◌else◌, Bool-cases, nat_eq, string_eq, pair_eq,
  length, get_or, get_or-replicate,
}
use go_wsc.Base.Int.{ℤ}
use go_wsc.Broker.Dedup.{new_dedup_window}
use go_wsc.Base.Map
use go_wsc.Base.Map.{Map}
use go_wsc.Broker.Dedup.{
  DedupShard, DedupWindow, empty_shard, swap_shard, swap_locked, shard_of, catch_up,
}

-- The time until which a key is remembered, 0 for a key that is not.
abbrev pub shard_horizon : ℕ → ℕ → Bool → Bool → ℕ
shard_horizon swap rollover true p = swap + 2 * rollover
shard_horizon swap rollover false true = swap + rollover
shard_horizon swap rollover false false = 0

unfoldable pub horizon : String → DedupWindow → ℕ
unfolding shard_of
horizon key d =
    let s = shard_of key d in
    shard_horizon d.last_swap d.rollover (Map.has key s.active) (Map.has key s.prev)

pub record IsTuned (d : DedupWindow) : Type 0 where
  pub sharded : 0 < length d.shards
  pub counted : length d.shards < 2 ^ 32
  pub rolls : 0 < d.rollover

get_or-map :
    (xs : List DedupShard) (i : ℕ)
    → get_or (map swap_shard xs) i empty_shard ≡ swap_shard (get_or xs i empty_shard)
unfolding swap_shard
get_or-map [] i = refl
get_or-map (x ∷ xs) zero = refl
get_or-map (x ∷ xs) (suc i) = get_or-map xs i

length-map_swap : (xs : List DedupShard) → length (map swap_shard xs) ≡ length xs
length-map_swap [] = refl
length-map_swap (x ∷ xs) = ap suc (length-map_swap xs)

-- The window after one round of the loop.
abbrev advance : DedupWindow → DedupWindow
advance d = record (swap_locked d) { last_swap = d.last_swap + d.rollover }

shard_of-advance :
    (key : String) (d : DedupWindow) → shard_of key (advance d) ≡ swap_shard (shard_of key d)
unfolding shard_of swap_locked
shard_of-advance key d = rw (length-map_swap d.shards) (get_or-map d.shards _)

shard_horizon-swap :
    (swap rollover : ℕ) (a p : Bool)
    → 0 < rollover
    → shard_horizon (swap + rollover) rollover false a ≡ (
        if ltb (swap + rollover) (shard_horizon swap rollover a p)
        then shard_horizon swap rollover a p
        else 0)
shard_horizon-swap swap rollover true p h = ground arith
shard_horizon-swap swap rollover false true h = ground arith
shard_horizon-swap swap rollover false false h = ground arith

horizon-advance :
    (key : String) (d : DedupWindow)
    → 0 < d.rollover
    → horizon key (advance d)
      ≡ (if ltb (d.last_swap + d.rollover) (horizon key d) then horizon key d else 0)
unfolding horizon swap_shard swap_locked Map.has Map.lookup
horizon-advance key d h =
    rw (shard_of-advance key d) (shard_horizon-swap d.last_swap d.rollover _ _ h)

-- A key that is remembered is so for at most two periods from the last swap, and for one at least.
horizon-cases :
    (key : String) (d : DedupWindow)
    → (horizon key d ≡ 0) ⊎ (d.last_swap + d.rollover ≤ horizon key d)
unfolding horizon
horizon-cases key d = elim (Bool-cases (Map.has key (shard_of key d).active)) [
  | inl a ↦ rw a (inr (omega arith))
  | inr a ↦ rw a (elim (Bool-cases (Map.has key (shard_of key d).prev)) [
    | inl p ↦ rw p (inr (omega arith))
    | inr p ↦ rw p (inl refl)
  ])
]

-- The window `e` is `d` brought up to the time `now`.
pub record CaughtUp (now : ℕ) (d e : DedupWindow) : Type 0 where
  pub tuned : IsTuned e
  pub period : e.rollover ≡ d.rollover
  pub started : e.last_swap ≤ now
  pub current : now < e.last_swap + e.rollover
  pub kept : (key : String) → horizon key e ≡ (if ltb now (horizon key d) then horizon key d else 0)

advance-IsTuned : (d : DedupWindow) → IsTuned d → IsTuned (advance d)
unfolding swap_locked
advance-IsTuned d t = record {
  sharded = rw (length-map_swap d.shards) t.sharded;
  counted = rw (length-map_swap d.shards) t.counted;
  rolls = t.rolls;
}

advance-CaughtUp :
    (now : ℕ) (d e : DedupWindow)
    → 0 < d.rollover
    → d.last_swap + d.rollover ≤ now
    → CaughtUp now (advance d) e
    → CaughtUp now d e
unfolding swap_locked
advance-CaughtUp now d e h p c = record {
  tuned = c.tuned;
  period = c.period;
  started = c.started;
  current = c.current;
  kept = λ key. ground (arith, c.kept key, horizon-advance key d h);
}

late :
    (swap rollover now fuel : ℕ)
    → 0 < rollover
    → now < swap + suc fuel
    → now < swap + rollover + fuel
late swap rollover now fuel h f = omega arith

-- The loop of `Seen` ends: as much fuel as time has passed since the last swap, and one more, ends it
-- in a window whose period holds the time.
pub catch_up-CaughtUp :
    (fuel now : ℕ) (d : DedupWindow)
    → IsTuned d
    → d.last_swap ≤ now
    → now < d.last_swap + fuel
    → (e : DedupWindow) × (catch_up fuel now d ≡ some e) × CaughtUp now d e
unfolding catch_up swap_locked
catch_up-CaughtUp zero now d t s f = absurd (omega arith)
catch_up-CaughtUp (suc fuel) now d t s f = elim (Bool-cases (leb (d.last_swap + d.rollover) now)) [
  | inl due ↦
      let p : d.last_swap + d.rollover ≤ now = ground arith in
      let (e, q, c) =
        catch_up-CaughtUp fuel now (advance d) (advance-IsTuned d t) p
          (late d.last_swap d.rollover now fuel t.rolls f) in
      (e, rw due q, advance-CaughtUp now d e t.rolls p c)
  | inr early ↦ (
    d,
    rw early refl,
    record {
      tuned = t;
      period = refl;
      started = s;
      current = ground arith;
      kept = λ key. ground (arith, horizon-cases key d);
    },
  )
]

-- A new window remembers no key.
pub new_dedup_window-horizon :
    (ttl shards : ℤ) (now : ℕ) (key : String) → horizon key (new_dedup_window ttl shards now) ≡ 0
unfolding horizon new_dedup_window shard_of Map.has Map.lookup
new_dedup_window-horizon ttl shards now key =
    rw (get_or-replicate {A = DedupShard} _ _ empty_shard) refl

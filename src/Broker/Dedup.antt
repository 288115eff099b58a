-- ===== src/Broker/Dedup.antt =====
-- broker/dedup.go: the window of two generations that recognises redelivered messages. Times are
-- nanoseconds of the monotonic clock; a call, which locks the window and then a
-- shard, is one step, and its time is an argument.

pub mod Horizon
pub mod Slices
pub mod Answers
pub mod Runs
use go_wsc.Base.{
  ℕ, zero, suc, ◌+◌, ◌-◌, ◌*◌, ◌/◌, ◌%◌, ◌^◌, String, Bool, true, false, Option, none, some, List,
  map, leb, if◌then◌else◌, nat_eq, string_eq, pair_eq, length, get_or, set, replicate, [],
}
use go_wsc.Base.Int.{ℤ, pos, pos_part, leb_ℤ}
use go_wsc.Base.Map
use go_wsc.Base.Map.{Map}
use mathlib.Core.Option
use go_wsc.Base.Bytes.{fnv_string, fnv_offset_32}

abbrev pub default_dedup_ttl : ℤ
default_dedup_ttl = pos (60 * 10 ^ 9)

abbrev pub default_dedup_shards : ℤ
default_dedup_shards = pos 64

-- Go has `map[string]struct{}` here.
abbrev pub Keys : Type 0
Keys = Map {0, 0} String Unit

pub record DedupShard : Type 0 where
  pub active : Keys
  pub prev : Keys

abbrev pub empty_shard : DedupShard
empty_shard = record { active = []; prev = [] }

pub record DedupWindow : Type 0 where
  pub shards : List DedupShard
  pub ttl : ℕ
  pub rollover : ℕ
  pub last_swap : ℕ

-- The window of a ttl and a number of shards, at a time.
unfoldable pub new_dedup_window : ℤ → ℤ → ℕ → DedupWindow
new_dedup_window ttl shards now =
    let ttl' = if leb_ℤ ttl (pos 0) then default_dedup_ttl else ttl in
    let shards' = if leb_ℤ shards (pos 0) then default_dedup_shards else shards in
    record {
      shards = replicate (pos_part shards') empty_shard;
      ttl = pos_part ttl';
      rollover = pos_part ttl' / 2;
      last_swap = now;
    }

-- The shard of a key among a number of shards, which Go makes a uint32.
pub fnv_shard : String → ℕ → ℕ
unfolding fnv_string
fnv_shard key shards = fnv_string fnv_offset_32 key % (shards % 2 ^ 32)

pub swap_shard : DedupShard → DedupShard
swap_shard s = record { active = []; prev = s.active }

unfoldable pub swap_locked : DedupWindow → DedupWindow
unfolding swap_shard
swap_locked d = record d { shards = map swap_shard d.shards }

-- The loop of `Seen` that swaps the generations for each period that has passed, on fuel; `none` is a
-- loop that the fuel does not end.
unfoldable pub catch_up : ℕ → ℕ → DedupWindow → Option DedupWindow
unfolding swap_locked
catch_up zero now d = none
catch_up (suc fuel) now d =
    let d' = record (swap_locked d) { last_swap = d.last_swap + d.rollover } in
    let rest = catch_up fuel now d' in if leb (d.last_swap + d.rollover) now then rest else some d

pub shard_of : String → DedupWindow → DedupShard
unfolding fnv_shard
shard_of key d = get_or d.shards (fnv_shard key (length d.shards)) empty_shard

pub set_shard : String → DedupShard → DedupWindow → DedupWindow
unfolding fnv_shard
set_shard key s d = record d { shards = set d.shards (fnv_shard key (length d.shards)) s }

-- `Seen` behind its loop: the new window, and whether the key is seen for the first time.
pub mark : String → DedupWindow → DedupWindow × Bool
unfolding shard_of set_shard
mark key d =
    let shard = shard_of key d in
    if Map.has key shard.active
    then (d, false)
    else if Map.has key shard.prev
    then (d, false)
    else (set_shard key (record shard { active = Map.insert key tt shard.active }) d, true)

-- One more round than the time since the last swap is fuel enough.
unfoldable pub seen : String → ℕ → DedupWindow → Option (DedupWindow × Bool)
unfolding catch_up mark
seen key now d = Option.map (mark key) (catch_up (suc (now - d.last_swap)) now d)

unfoldable pub unmark : String → DedupWindow → DedupWindow
unfolding shard_of set_shard
unmark key d =
    let shard = shard_of key d in
    set_shard key (record { active = Map.erase key shard.active; prev = Map.erase key shard.prev })
      d

-- ===== src/Overload/Shaper.antt =====
-- overload/tokenbucket.go: the GCRA shaper. A call of the clock is the argument `now` in nanoseconds;
-- the compare-and-swap loop is the one step in which its exchange succeeds.
pub mod Rate
use go_wsc.Base.{
  ℕ, zero, suc, ◌+◌, ◌-◌, ◌*◌, ◌/◌, ◌%◌, ◌^◌, ◌≤◌, ◌<◌, String, ◌≡◌, refl, sym, ap, ◌∙◌, ◌≢◌, ◌↔◌,
  ◌⊎◌, inl, inr, Bool, true, false, not, ◌&&◌, ◌||◌, Option, none, some, List, [], ◌∷◌, ◌++◌, map,
  arith, eq_iff, ltb, leb, eqb, str_eq, if◌then◌else◌, ltb→lt, lt→ltb, leb→le, eqb_iff, Bool-cases,
  Option-cases, Eq, nat_eq, string_eq, ◌==◌, agrees_refl, length, length-append, get_or, total,
  total-append, one_of, every, one_of-every,
}
use go_wsc.Base.Int.{
  ℤ, pos, negsuc, pos_part, neg_part, ◌+ℤ◌, ◌-ℤ◌, ◌*ℤ◌, ◌≤ℤ◌, ◌<ℤ◌, ltb_ℤ, leb_ℤ, eqb_ℤ, int64,
  +ℤ_parts, -ℤ_parts, eq_of_parts, int_laws, +ℤ-pos, -ℤ-pos, int64-pos,
}

abbrev pub default_broadcast_shaper_rate : ℤ
default_broadcast_shaper_rate = pos 10000

pub record Shaper : Type 0 where
  pub tat : ℤ
  pub rate_per_sec : ℤ
  pub burst_time : ℤ

-- time.Second and 100 * time.Millisecond.
abbrev pub second : ℕ
second = 1000000000

abbrev pub burst_window : ℕ
burst_window = 100000000

unfoldable pub new_shaper : ℤ → ℤ → Shaper
new_shaper rate_per_sec now = record {
  tat = now;
  rate_per_sec = if leb_ℤ rate_per_sec (pos 0) then default_broadcast_shaper_rate else rate_per_sec;
  burst_time = pos burst_window;
}

-- Go's division of `time.Second` by a positive rate.
unfoldable pub interval : Shaper → ℤ
interval s = if leb_ℤ s.rate_per_sec (pos 0) then pos 0 else pos (second / pos_part s.rate_per_sec)

-- The pass through the loop that ends it, after the test of the interval.
unfoldable pub exchange : Shaper → ℤ → ℤ → Shaper × Bool
exchange s now step =
    if ltb_ℤ (int64 (now +ℤ s.burst_time)) s.tat
    then (s, false)
    else (record s { tat = int64 ((if ltb_ℤ s.tat now then now else s.tat) +ℤ step) }, true)

unfoldable pub allow : Shaper → ℤ → Shaper × Bool
unfolding exchange
allow s now = if leb_ℤ (interval s) (pos 0) then (s, true) else exchange s now (interval s)

unfoldable pub set_rate : ℤ → Shaper → Shaper
set_rate rate_per_sec s = record s {
  rate_per_sec = if ltb_ℤ rate_per_sec (pos 1) then pos 1 else rate_per_sec;
}

-- The calls of Allow at the times of a list: how many were let through.
unfoldable pub allowed : Shaper → List ℤ → ℕ
unfolding allow
allowed s [] = 0
allowed s (now ∷ ts) =
    let rest = allowed (allow s now).0 ts in if (allow s now).1 then suc rest else rest

-- ===== src/Overload/Shaper/Rate.antt =====
-- overload/tokenbucket.go: how many calls the shaper lets through.
use go_wsc.Base.{
  ℕ, suc, ◌+◌, ◌*◌, ◌^◌, ◌≤◌, ◌<◌, ◌≡◌, refl, ap, ◌∙◌, ◌⊎◌, inl, inr, true, false, List, [], ◌∷◌,
  map, arith, ltb, if◌then◌else◌, nat_eq, string_eq, length,
}
use go_wsc.Base.Int.{ℤ, pos, ◌+ℤ◌}
use go_wsc.Overload.Shaper.{Shaper, interval, allow, allowed}

-- A shaper whose fields are numbers: the arrival time `t`, the burst `b` and the interval `i`.
pub record Reads (s : Shaper) (t b i : ℕ) : Type 0 where
  pub tat_reads : s.tat ≡ pos t
  pub burst_reads : s.burst_time ≡ pos b
  pub interval_reads : interval s ≡ pos i

later : ℕ → ℕ → ℕ
later t now = if ltb t now then now else t

later_bounds : (t b now : ℕ) → t ≤ now + b → (t ≤ later t now) × (later t now ≤ now + b)
unfolding later
later_bounds t b now h = ground arith

-- One call, where nothing wraps around.
allow-Reads :
    (s : Shaper) (t b i now : ℕ)
    → Reads s t b i
    → 0 < i
    → now + b + i < 2 ^ 63
    → ((now + b < t) × (allow s (pos now) ≡ (s, false)))
      ⊎ ((t ≤ now + b) × (allow s (pos now) ≡ (record s { tat = pos (later t now + i) }, true)))
unfolding allow ◌+ℤ◌ later
allow-Reads s t b i now r p h = ground arith

-- `interval` reads the rate alone.
interval-tat : (s : Shaper) (t : ℤ) → interval (record s { tat = t }) ≡ interval s
unfolding interval
interval-tat s t = refl

next-Reads :
    (s : Shaper) (t b i now : ℕ)
    → Reads s t b i
    → Reads (record s { tat = pos (later t now + i) }) (later t now + i) b i
next-Reads s t b i now r = record {
  tat_reads = refl;
  burst_reads = r.burst_reads;
  interval_reads = interval-tat s _ ∙ r.interval_reads;
}

abbrev pub AllLe : ℕ → List ℕ → Type 0
AllLe e [] = Unit
AllLe e (t ∷ ts) = (t ≤ e) × AllLe e ts

abbrev pub at : List ℕ → List ℤ
at = map pos

-- Over calls at any times up to a last one, in any order, the shaper lets through at most so many
-- that their intervals fill the time from its arrival time to the last call, the burst and one
-- interval more; nothing wraps around.
pub allowed-bound :
    (s : Shaper) (t b i e : ℕ) (ts : List ℕ)
    → Reads s t b i
    → 0 < i
    → e + b + i < 2 ^ 63
    → t ≤ e + b + i
    → AllLe e ts
    → allowed s (at ts) * i + t ≤ e + b + i
unfolding allowed
allowed-bound s t b i e [] r p w l h = omega arith
allowed-bound s t b i e (now ∷ ts) r p w l h = elim (allow-Reads s t b i now r p (omega arith)) [
  | inl (early, same) ↦ rw (same, allowed) (allowed-bound s t b i e ts r p w l h.1)
  | inr (due, next) ↦
      let after = record s { tat = pos (later t now + i) } in
      let (above, below) = later_bounds t b now due in
      rw next (
        omega (
          arith,
          allowed-bound after (later t now + i) b i e ts (next-Reads s t b i now r) p w
              (omega arith) h.1,
        ))
]

-- Calls that keep a distance of at least `i` from one another and from `prev`.
abbrev pub Paced : ℕ → ℕ → List ℕ → Type 0
Paced i prev [] = Unit
Paced i prev (t ∷ ts) = (prev + i ≤ t) × Paced i t ts

-- Calls that are paced by the interval are all let through, when the first of them is not too early
-- for the arrival time; nothing wraps around.
pub allowed-Paced :
    (s : Shaper) (t b i e prev : ℕ) (ts : List ℕ)
    → Reads s t b i
    → 0 < i
    → e + b + i < 2 ^ 63
    → t ≤ prev + i + b
    → AllLe e ts
    → Paced i prev ts
    → allowed s (at ts) ≡ length ts
unfolding allowed
allowed-Paced s t b i e prev [] r p w l h q = refl
allowed-Paced s t b i e prev (now ∷ ts) r p w l h q =
    elim (allow-Reads s t b i now r p (omega arith)) [
      | inl (early, same) ↦ absurd (omega arith)
      | inr (due, next) ↦
          let after = record s { tat = pos (later t now + i) } in
          let (above, below) = later_bounds t b now due in
          rw next (
            ap suc (
              allowed-Paced after (later t now + i) b i e now ts (next-Reads s t b i now r) p w
                (omega arith) h.1 q.1))
    ]

-- ===== src/Broker/Dedup/Runs.antt =====
-- broker/dedup.go: a key over a run of calls of `Seen` and `Unmark`.
use go_wsc.Base.{
  ℕ, ◌+◌, ◌*◌, ◌≤◌, ◌<◌, String, ◌≡◌, refl, ap, inl, inr, Bool, true, false, Option, some, List, [],
  ◌∷◌, ◌>>=◌, arith, Bool-cases, nat_eq, string_eq, pair_eq, ◌==◌, agrees_refl,
}
use mathlib.Core.Path.{subst}
use go_wsc.Broker.Dedup.{DedupWindow, seen, unmark}
use go_wsc.Broker.Dedup.Horizon.{IsTuned, horizon}
use go_wsc.Broker.Dedup.Answers.{
  Answered, seen-Answered, unmark-horizon, unmark-IsTuned, unmark-last_swap,
}

pub data Call : Type 0 where
  see : String → ℕ → Call
  release : String → Call

abbrev pub step : Call → DedupWindow → Option DedupWindow
step (see key now) d = do r ← seen key now d; some r.0
step (release key) d = some (unmark key d)

abbrev pub run : List Call → DedupWindow → Option DedupWindow
run [] d = some d
run (c ∷ cs) d = do d' ← step c d; run cs d'

-- The calls' times do not decrease from one time to another, and none releases the key.
abbrev pub Between : String → ℕ → List Call → ℕ → Type 0
Between key from [] end = from ≤ end
Between key from (see k now ∷ cs) end = (from ≤ now) × Between key now cs end
Between key from (release k ∷ cs) end = (k == key ≡ false) × Between key from cs end

Between-le :
    (key : String) (from : ℕ) (cs : List Call) (end : ℕ) → Between key from cs end → from ≤ end
Between-le key from [] end b = b
Between-le key from (see k now ∷ cs) end b = omega (arith, b.0, Between-le key now cs end b.1)
Between-le key from (release k ∷ cs) end b = Between-le key from cs end b.1

-- `Seen` shortens no other key's time, nor that of the key itself, before it is over.
remembered_longer :
    (key k : String) (now : ℕ) (d e : DedupWindow) (first : Bool)
    → Answered k now d e first
    → now < horizon key d
    → horizon key d ≤ horizon key e
remembered_longer key k now d e first a h = elim (Bool-cases (k == key)) [
  | inl same ↦
      let known : horizon k d ≡ horizon key d =
        ap (λ i. horizon i d) ((string_eq.agrees_iff k key).0 same) in
      ground (arith, a.answer, a.remembered key, known)
  | inr other ↦ ground (arith, a.remembered key)
]

-- A key that is remembered past the end of a run is remembered as long after it.
pub run-remembers :
    (key : String) (from : ℕ) (cs : List Call) (end : ℕ) (d : DedupWindow)
    → IsTuned d
    → d.last_swap ≤ from
    → Between key from cs end
    → end < horizon key d
    → (e : DedupWindow) × (run cs d ≡ some e)
      × IsTuned e
      × (e.last_swap ≤ end)
      × (horizon key d ≤ horizon key e)
run-remembers key from [] end d t s b h = (d, refl, t, omega arith, omega arith)
run-remembers key from (see k now ∷ cs) end d t s b h =
    let (d', first, q, a) = seen-Answered k now d t (omega (arith, b.0)) in
    let grows : horizon key d ≤ horizon key d' =
      remembered_longer key k now d d' first a (omega (arith, h, Between-le key now cs end b.1)) in
    let (e, r, t', s', h') = run-remembers key now cs end d' a.tuned a.started b.1 (omega arith) in
    (e, rw q r, t', s', omega arith)
run-remembers key from (release k ∷ cs) end d t s b h =
    let same : horizon key (unmark k d) ≡ horizon key d = rw (unmark-horizon k key d t, b.0) refl in
    let (e, r, t', s', h') =
      run-remembers key from cs end (unmark k d) (unmark-IsTuned k d t)
        (rw (unmark-last_swap k d) s) b.1 (rw same h) in
    (e, r, t', s', omega (arith, same))

Answered_of :
    (key : String) (now : ℕ) (d e : DedupWindow) (first : Bool)
    → IsTuned d
    → d.last_swap ≤ now
    → seen key now d ≡ some (e, first)
    → Answered key now d e first
Answered_of key now d e first t s q =
    let (e', first', q', a) = seen-Answered key now d t s in
    let same : Path (DedupWindow × Bool) (e', first') (e, first) = cc (q, q') in
    subst (λ r. Answered key now d r.0 r.1) same a

-- A key that Seen has just called new, at a time from the last swap on, and that is not released,
-- is a duplicate for Seen at every time less than a period later, whatever calls come between.
pub seen-duplicate :
    (key : String) (now later : ℕ) (cs : List Call) (d d' : DedupWindow)
    → IsTuned d
    → d.last_swap ≤ now
    → seen key now d ≡ some (d', true)
    → Between key now cs later
    → later < now + d.rollover
    → (e e' : DedupWindow) × (run cs d' ≡ some e) × (seen key later e ≡ some (e', false))
seen-duplicate key now later cs d d' t s q b w =
    let a = Answered_of key now d d' true t s q in
    let start : horizon key d' ≡ d'.last_swap + 2 * d'.rollover =
      ground (arith, a.remembered key, agrees_refl key) in
    let (e, r, t', s', h) =
      run-remembers key now cs later d' a.tuned a.started b
        (omega (arith, start, a.current, a.period)) in
    let (e', first, q', a') = seen-Answered key later e t' s' in
    let old : first ≡ false = ground (arith, a'.answer, start, a.current, a.period) in
    (e, e', r, rw (← old) q')

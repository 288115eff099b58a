-- ===== src/Overload/Coalescer/Interleaving/Bound.antt =====
-- overload/coalescer.go: how far the entries exceed the capacity when offers overlap, and the count.
use go_wsc.Base.{
  ℕ, suc, ◌+◌, ◌^◌, ◌≤◌, ◌<◌, ◌≡◌, refl, ap, ap₂, ◌∙◌, List, [], ◌∷◌, ◌++◌, arith, nat_eq,
  string_eq, pair_eq, total, total-append,
}
use go_wsc.Base.Int.{ℤ, pos, ◌+ℤ◌, ◌-ℤ◌, ◌<ℤ◌, int64}
use go_wsc.Overload.Coalescer.Interleaving.{
  Thread, passed, wrote, taken, World, pass_test, write_entry, count_entry, take_entries,
  count_taken, Step, tests, writes, counts, drains, takes, counts_off, has_passed, owes_add,
  owes_sub, under_way, Run, start, next, empty,
}

abbrev gap : ℕ → ℕ → ℤ
gap t a = pos t -ℤ pos a

up : (t a : ℕ) → t < 2 ^ 62 → a < 2 ^ 62 → int64 (gap t (suc a) +ℤ pos 1) ≡ gap t a
unfolding ◌+ℤ◌ ◌-ℤ◌
up t a w v = ground arith

down : (t a k : ℕ) → t + k < 2 ^ 62 → a < 2 ^ 62 → int64 (gap (t + k) a -ℤ pos k) ≡ gap t a
unfolding ◌-ℤ◌
down t a k w v = ground arith

same_gap : (t a : ℕ) → gap t a ≡ gap (suc t) (suc a)
unfolding ◌-ℤ◌
same_gap t a = ground arith

no_gap : (t : ℕ) → gap (t + 0) 0 ≡ pos t
unfolding ◌-ℤ◌
no_gap t = ground arith

gap-lt : (t a cap : ℕ) → gap t a <ℤ pos cap → t < cap + a
unfolding ◌-ℤ◌
gap-lt t a cap h = ground (arith, h)

total-middle :
    (f : Thread → ℕ) (before after : List Thread) (t : Thread)
    → total f (before ++ t ∷ after) ≡ f t + total f (before ++ after)
total-middle f before after t =
    omega (arith, total-append f before (t ∷ after), total-append f before after)

total-of :
    (f : Thread → ℕ) (ts before after : List Thread) (t : Thread)
    → ts ≡ before ++ t ∷ after
    → total f ts ≡ f t + total f (before ++ after)
total-of f ts before after t e = ap (total f) e ∙ total-middle f before after t

-- The counter is the number of entries, but for what the threads owe; the entries, with those that
-- are to be written, stay below the capacity and the number of offers under way.
pub record IsGauged (cap most n : ℕ) (w : World) : Type 0 where
  pub balance : w.size ≡ gap (w.entries + total owes_sub w.threads) (total owes_add w.threads)
  pub bounded : w.entries + total has_passed w.threads < cap + most
  pub small : w.entries + total owes_sub w.threads ≤ n
  pub few : total owes_add w.threads ≤ n

module _ (cap most n : ℕ) (fits : suc n < 2 ^ 62) (w : World) (g : IsGauged cap most n w) where
  tests-IsGauged :
      w.size <ℤ pos cap → under_way (pass_test w) ≤ most → IsGauged cap most (suc n) (pass_test w)
  tests-IsGauged room few =
      let below = gap-lt _ _ cap (rw g.balance at room) in
      record {
        balance = g.balance ∙ ap₂ gap (omega arith) (omega arith);
        bounded = omega (arith, below, few);
        small = omega (arith, g.small);
        few = omega (arith, g.few);
      }

  writes-IsGauged :
      (before after : List Thread)
      → w.threads ≡ before ++ passed ∷ after
      → IsGauged cap most (suc n) (write_entry w before after)
  writes-IsGauged before after e =
      let adds = total-of owes_add w.threads before after passed e in
      let subs = total-of owes_sub w.threads before after passed e in
      let ready = total-of has_passed w.threads before after passed e in
      let adds' = total-middle owes_add before after wrote in
      let subs' = total-middle owes_sub before after wrote in
      let ready' = total-middle has_passed before after wrote in
      record {
        balance =
            g.balance
            ∙ same_gap _ _
            ∙ ap₂ gap (omega (arith, subs, subs')) (omega (arith, adds, adds'));
        bounded = omega (arith, ready, ready', g.bounded);
        small = omega (arith, subs, subs', g.small);
        few = omega (arith, adds, adds', g.few);
      }

  counts-IsGauged :
      (before after : List Thread)
      → w.threads ≡ before ++ wrote ∷ after
      → IsGauged cap most (suc n) (count_entry w (before ++ after))
  counts-IsGauged before after e =
      let adds : total owes_add w.threads ≡ suc (total owes_add (before ++ after)) =
        omega (arith, total-of owes_add w.threads before after wrote e) in
      let subs = total-of owes_sub w.threads before after wrote e in
      let ready = total-of has_passed w.threads before after wrote e in
      record {
        balance =
            ap (λ z. int64 (z +ℤ pos 1)) (g.balance ∙ ap₂ gap (omega (arith, subs)) adds)
            ∙ up _ _ (omega (arith, subs, g.small)) (omega (arith, adds, g.few));
        bounded = omega (arith, ready, g.bounded);
        small = omega (arith, subs, g.small);
        few = omega (arith, adds, g.few);
      }

  takes-IsGauged :
      (m k : ℕ) (before after : List Thread)
      → w.threads ≡ before ++ taken m ∷ after
      → k ≤ w.entries
      → IsGauged cap most (suc n) (take_entries m k w before after)
  takes-IsGauged m k before after e le =
      let adds = total-of owes_add w.threads before after (taken m) e in
      let subs = total-of owes_sub w.threads before after (taken m) e in
      let ready = total-of has_passed w.threads before after (taken m) e in
      let adds' = total-middle owes_add before after (taken (m + k)) in
      let subs' = total-middle owes_sub before after (taken (m + k)) in
      let ready' = total-middle has_passed before after (taken (m + k)) in
      record {
        balance = g.balance ∙ ap₂ gap (omega (arith, subs, subs', le)) (omega (arith, adds, adds'));
        bounded = omega (arith, ready, ready', le, g.bounded);
        small = omega (arith, subs, subs', le, g.small);
        few = omega (arith, adds, adds', g.few);
      }

  counts_off-IsGauged :
      (m : ℕ) (before after : List Thread)
      → w.threads ≡ before ++ taken m ∷ after
      → IsGauged cap most (suc n) (count_taken m w (before ++ after))
  counts_off-IsGauged m before after e =
      let adds : total owes_add w.threads ≡ total owes_add (before ++ after) =
        omega (arith, total-of owes_add w.threads before after (taken m) e) in
      let subs = total-of owes_sub w.threads before after (taken m) e in
      let ready = total-of has_passed w.threads before after (taken m) e in
      record {
        balance =
            ap (λ z. int64 (z -ℤ pos m)) (g.balance ∙ ap₂ gap (omega (arith, subs)) adds)
            ∙ down _ _ m (omega (arith, subs, g.small)) (omega (arith, adds, g.few));
        bounded = omega (arith, ready, g.bounded);
        small = omega (arith, subs, g.small);
        few = omega (arith, adds, g.few);
      }

Step-IsGauged :
    (cap most n : ℕ) (v w : World)
    → suc n < 2 ^ 62
    → IsGauged cap most n v
    → Step cap v w
    → under_way w ≤ most
    → IsGauged cap most (suc n) w
Step-IsGauged cap most n v _ k g (tests _ room) few = tests-IsGauged cap most n k v g room few
Step-IsGauged cap most n v _ k g (writes _ before after e) few =
    writes-IsGauged cap most n k v g before after e
Step-IsGauged cap most n v _ k g (counts _ before after e) few =
    counts-IsGauged cap most n k v g before after e
Step-IsGauged cap most n v _ k g (drains _) few = record {
  balance = g.balance ∙ ap₂ gap (omega arith) (omega arith);
  bounded = omega (arith, g.bounded);
  small = omega (arith, g.small);
  few = omega (arith, g.few);
}
Step-IsGauged cap most n v _ k g (takes m t _ before after e le) few =
    takes-IsGauged cap most n k v g m t before after e le
Step-IsGauged cap most n v _ k g (counts_off m _ before after e) few =
    counts_off-IsGauged cap most n k v g m before after e

empty-IsGauged : (cap most : ℕ) → 0 < cap → IsGauged cap most 0 empty
unfolding ◌-ℤ◌
empty-IsGauged cap most h = record {
  balance = refl;
  bounded = omega arith;
  small = omega arith;
  few = omega arith;
}

run-IsGauged :
    (cap most n : ℕ) (w : World)
    → 0 < cap
    → n < 2 ^ 62
    → Run cap most empty n w
    → IsGauged cap most n w
run-IsGauged cap most n w h k r = go empty n w k r (empty-IsGauged cap most h)
  where
    go :
        (u : World) (n : ℕ) (w : World)
        → n < 2 ^ 62
        → Run cap most u n w
        → IsGauged cap most 0 u
        → IsGauged cap most n w
    go u _ w k (start _) g = g
    go u _ w k (next _ v _ n r s few) g =
        Step-IsGauged cap most n v w k (go u n v (omega arith) r g) s few

-- Over any run of fewer than 2 to the 62nd atomic steps from an empty coalescer with a positive
-- capacity, in which at no time more than a number of offers under new keys have passed the test
-- and are not counted yet, the entries stay below the sum of that number and the capacity, and the
-- size counter is exact when no call is under way. With one such offer at a time the capacity is
-- never exceeded.
pub run-bounded :
    (cap most n : ℕ) (w : World)
    → 0 < cap
    → n < 2 ^ 62
    → Run cap most empty n w
    → (w.entries < cap + most) × (w.threads ≡ [] → w.size ≡ pos w.entries)
run-bounded cap most n w h k r =
    let g = run-IsGauged cap most n w h k r in
    (omega (arith, g.bounded), λ idle. (rw idle at g.balance) ∙ no_gap w.entries)

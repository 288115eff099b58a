-- ===== src/Models/Client/Balance.antt =====
-- models/client.go: the shared counter and the counters of the connections over interleavings.
use go_wsc.Base.{
  ℕ, zero, suc, ◌+◌, ◌-◌, ◌^◌, ◌≤◌, ◌<◌, ◌≡◌, refl, ap, ap₂, ◌∙◌, List, [], ◌∷◌, ◌++◌, map, arith,
  if◌then◌else◌, nat_eq, string_eq, pair_eq, length, get_or, set, total-set, total, total-append,
}
use go_wsc.Base.Int.{ℤ, pos, ◌+ℤ◌, ◌-ℤ◌, ltb_ℤ, int64}
use go_wsc.Models.Client.Interleaving.{
  Thread, adding, subtracting, World, pending_at, reserve_at, count_one, take_at, count_off, Step,
  reserves, counts, takes, counts_off, Run, start, next, owes_add, owes_sub, count, IsBalanced,
}

map-set : (xs : List ℕ) (i v : ℕ) → set (map pos xs) i (pos v) ≡ map pos (set xs i v)
map-set [] i v = refl
map-set (x ∷ xs) zero v = refl
map-set (x ∷ xs) (suc i) v = ap (λ ys. pos x ∷ ys) (map-set xs i v)

map-get_or : (xs : List ℕ) (i : ℕ) → get_or (map pos xs) i (pos 0) ≡ pos (get_or xs i 0)
map-get_or [] i = refl
map-get_or (x ∷ xs) zero = refl
map-get_or (x ∷ xs) (suc i) = map-get_or xs i

length-map_pos : (xs : List ℕ) → length (map pos xs) ≡ length xs
length-map_pos [] = refl
length-map_pos (x ∷ xs) = ap suc (length-map_pos xs)

up : (t a : ℕ) → t < 2 ^ 62 → a < 2 ^ 62 → int64 ((pos t -ℤ pos (suc a)) +ℤ pos 1) ≡ pos t -ℤ pos a
unfolding ◌+ℤ◌ ◌-ℤ◌
up t a w v = ground arith

down :
    (t a k : ℕ)
    → t + k < 2 ^ 62
    → a < 2 ^ 62
    → int64 ((pos (t + k) -ℤ pos a) -ℤ pos k) ≡ pos t -ℤ pos a
unfolding ◌-ℤ◌
down t a k w v = ground arith

total-middle :
    (f : Thread → ℕ) (before after : List Thread) (t : Thread)
    → total f (before ++ t ∷ after) ≡ f t + total f (before ++ after)
total-middle f before after t =
    omega (arith, total-append f before (t ∷ after), total-append f before after)

total-put :
    (xs : List ℕ) (i v : ℕ)
    → i < length xs
    → total count (set xs i v) + get_or xs i 0 ≡ total count xs + v
total-put xs i v h = total-set count xs i v 0 h

get_or-le : (xs : List ℕ) (i : ℕ) → get_or xs i 0 ≤ total count xs
get_or-le [] i = omega arith
get_or-le (x ∷ xs) zero = omega arith
get_or-le (x ∷ xs) (suc i) = omega (arith, get_or-le xs i)

reserve_one : (z : ℤ) (p : ℕ) → z ≡ pos p → p < 2 ^ 62 → int64 (z +ℤ pos 1) ≡ pos (suc p)
unfolding ◌+ℤ◌
reserve_one z p e w = rw e (ground arith)

take_off : (z : ℤ) (p t : ℕ) → z ≡ pos p → t ≤ p → p < 2 ^ 62 → int64 (z -ℤ pos t) ≡ pos (p - t)
unfolding ◌-ℤ◌
take_off z p t e h w = rw e (ground arith)

no_gap : (t : ℕ) → pos (t + 0) -ℤ pos 0 ≡ pos t
unfolding ◌-ℤ◌
no_gap t = ground arith

same_gap : (t a : ℕ) → pos t -ℤ pos a ≡ pos (suc t) -ℤ pos (suc a)
unfolding ◌-ℤ◌
same_gap t a = ground arith

least : (p n take : ℕ) → (if ltb_ℤ (pos p) (pos n) then pos p else pos n) ≡ pos take → take ≤ p
least p n take h = ground (arith, h)

abbrev gap : ℕ → ℕ → ℤ
gap t a = pos t -ℤ pos a

takes_le :
    (z : ℤ) (p n take : ℕ)
    → z ≡ pos p
    → (if ltb_ℤ z (pos n) then z else pos n) ≡ pos take
    → take ≤ p
takes_le z p n take e h = least p n take (rw e at h)

module _ (n : ℕ) (small : suc n < 2 ^ 62) (w : World) (b : IsBalanced n w) where
  here : (i : ℕ) → pending_at i w ≡ pos (get_or b.owned i 0)
  here i = rw b.reads (map-get_or b.owned i)

  indexed : (i : ℕ) → i < length w.pendings → i < length b.owned
  indexed i h = rw (← length-map_pos b.owned, ← b.reads) h

  reserve_at-IsBalanced : (i : ℕ) → i < length w.pendings → IsBalanced (suc n) (reserve_at i w)
  reserve_at-IsBalanced i h =
      let grown = total-put b.owned i (suc (get_or b.owned i 0)) (indexed i h) in
      let one =
        reserve_one (pending_at i w) (get_or b.owned i 0) (here i)
          (omega (arith, get_or-le b.owned i, b.small)) in
      record {
        owned = set b.owned i (suc (get_or b.owned i 0));
        reads = rw (one, b.reads) (map-set b.owned i (suc (get_or b.owned i 0)));
        balance = b.balance ∙ same_gap _ _ ∙ ap₂ gap (omega (arith, grown)) (omega arith);
        small = omega (arith, grown, b.small);
        few = omega (arith, b.few);
      }

  count_one-IsBalanced :
      (before after : List Thread)
      → w.threads ≡ before ++ adding ∷ after
      → IsBalanced (suc n) (count_one w (before ++ after))
  count_one-IsBalanced before after e =
      let adds : total owes_add w.threads ≡ suc (total owes_add (before ++ after)) =
        rw e (omega (arith, total-middle owes_add before after adding)) in
      let subs : total owes_sub w.threads ≡ total owes_sub (before ++ after) =
        rw e (omega (arith, total-middle owes_sub before after adding)) in
      record {
        owned = b.owned;
        reads = b.reads;
        balance =
            ap (λ z. int64 (z +ℤ pos 1)) (b.balance ∙ ap₂ gap (omega (arith, subs)) adds)
            ∙ up _ _ (omega (arith, subs, b.small)) (omega (arith, adds, b.few));
        small = omega (arith, subs, b.small);
        few = omega (arith, adds, b.few);
      }

  take_at-IsBalanced :
      (i k take : ℕ)
      → i < length w.pendings
      → (if ltb_ℤ (pending_at i w) (pos k) then pending_at i w else pos k) ≡ pos take
      → IsBalanced (suc n) (take_at i take w)
  take_at-IsBalanced i k take h e =
      let p = get_or b.owned i 0 in
      let le = takes_le (pending_at i w) p k take (here i) e in
      let shrunk = total-put b.owned i (p - take) (indexed i h) in
      let off =
        take_off (pending_at i w) p take (here i) le
          (omega (arith, get_or-le b.owned i, b.small)) in
      record {
        owned = set b.owned i (p - take);
        reads = rw (off, b.reads) (map-set b.owned i (p - take));
        balance = b.balance ∙ ap₂ gap (omega (arith, shrunk, le)) (omega arith);
        small = omega (arith, shrunk, le, b.small);
        few = omega (arith, b.few);
      }

  count_off-IsBalanced :
      (take : ℕ) (before after : List Thread)
      → w.threads ≡ before ++ subtracting take ∷ after
      → IsBalanced (suc n) (count_off take w (before ++ after))
  count_off-IsBalanced take before after e =
      let adds : total owes_add w.threads ≡ total owes_add (before ++ after) =
        rw e (omega (arith, total-middle owes_add before after (subtracting take))) in
      let subs : total owes_sub w.threads ≡ take + total owes_sub (before ++ after) =
        rw e (omega (arith, total-middle owes_sub before after (subtracting take))) in
      record {
        owned = b.owned;
        reads = b.reads;
        balance =
            ap (λ z. int64 (z -ℤ pos take)) (b.balance ∙ ap₂ gap (omega (arith, subs)) adds)
            ∙ down _ _ take (omega (arith, subs, b.small)) (omega (arith, adds, b.few));
        small = omega (arith, subs, b.small);
        few = omega (arith, adds, b.few);
      }

Step-IsBalanced :
    (n : ℕ) (v w : World) → suc n < 2 ^ 62 → IsBalanced n v → Step v w → IsBalanced (suc n) w
Step-IsBalanced n v _ k b (reserves i _ h) = reserve_at-IsBalanced n k v b i h
Step-IsBalanced n v _ k b (counts _ before after e) = count_one-IsBalanced n k v b before after e
Step-IsBalanced n v _ k b (takes i m take _ h e p) = take_at-IsBalanced n k v b i m take h e
Step-IsBalanced n v _ k b (counts_off take _ before after e) =
    count_off-IsBalanced n k v b take before after e

-- Over any run of fewer than 2 to the 62nd atomic steps from a balanced state, of any threads in
-- any order: what each connection has pending is never negative, and the shared counter is the sum
-- of what is pending and what is taken but not yet counted off, less the frames not yet counted.
pub run-IsBalanced :
    (u : World) (n : ℕ) (w : World) → IsBalanced 0 u → n < 2 ^ 62 → Run u n w → IsBalanced n w
run-IsBalanced u _ w b k (start _) = b
run-IsBalanced u _ w b k (next _ v _ n r s) =
    Step-IsBalanced n v w k (run-IsBalanced u n v b (omega arith) r) s

-- Over any run of fewer than 2 to the 62nd atomic steps from a balanced state, of any threads in
-- any order, that ends with no thread under way, no connection has a negative number of pending
-- frames, and the shared counter is the sum of what the connections have pending.
pub run-settled :
    (u : World) (n : ℕ) (w : World)
    → IsBalanced 0 u
    → n < 2 ^ 62
    → Run u n w
    → w.threads ≡ []
    → (owned : List ℕ) × (w.pendings ≡ map pos owned) × (w.counter ≡ pos (total (λ x. x) owned))
run-settled u n w b k r q =
    let c = run-IsBalanced u n w b k r in
    (c.owned, c.reads, (rw q at c.balance) ∙ no_gap (total count c.owned))

-- ===== src/Overload/Coalescer/Interleaving/Refines.antt =====
-- overload/coalescer.go: whole calls of Offer and their atomic steps.
use go_wsc.Base.{
  true, ℕ, suc, ◌^◌, ◌<◌, ◌≡◌, refl, sym, ap₂, inl, inr, false, ◌||◌, Option, none, some, [], ◌∷◌,
  arith, str_eq, Bool-cases, nat_eq, string_eq, pair_eq,
}
use mathlib.Core.Path.{subst}
use go_wsc.Base.Int.{ℤ, pos, ◌+ℤ◌, ◌<ℤ◌, int64}
use go_wsc.Models.HubMessage.{HubMessage}
use go_wsc.Overload.Coalescer.{Coalescer, EphemeralKey, offer, store, count_offer}
use go_wsc.Overload.Coalescer.Slots.{
  IsSound, occupied, stored, offer_cases, store_new-IsSound, store_old-IsSound,
}
use go_wsc.Overload.Coalescer.Interleaving.{
  World, passed, wrote, tests, writes, counts, Run, start, next,
}

-- The numbers of a coalescer while no call is under way.
abbrev pub numbers : Coalescer → World
numbers c = record { entries = occupied c; size = c.size; threads = [] }

below : (z : ℤ) (n cap : ℕ) → z ≡ pos n → n < cap → z <ℤ pos cap
below z n cap e h = rw e (ground arith)

module _ (cap : ℕ) (small : cap < 2 ^ 63) (c : Coalescer) (s : IsSound cap c) where
  stored_new-Run :
      (k : EphemeralKey) (m : HubMessage)
      → occupied c < cap
      → occupied (stored c k m false) ≡ suc (occupied c)
      → Run cap 1 (numbers c) 3 (numbers (stored c k m false))
  unfolding store count_offer
  stored_new-Run k m room grown =
      let w1 : World = record { entries = occupied c; size = c.size; threads = passed ∷ [] } in
      let w2 : World = record { entries = suc (occupied c); size = c.size; threads = wrote ∷ [] } in
      let r1 =
        next (numbers c) (numbers c) w1 0 (start (numbers c))
          (tests (numbers c) (below c.size (occupied c) cap s.size_reads room)) (omega arith) in
      let r2 = next (numbers c) w1 w2 1 r1 (writes w1 [] [] refl) (omega arith) in
      subst
        (λ n.
          Run cap 1 (numbers c) 3
            (record { entries = n; size = int64 (c.size +ℤ pos 1); threads = [] }))
        (sym grown) (next (numbers c) w2 _ 2 r2 (counts w2 [] [] refl) (omega arith))

  same-Run :
      (c' : Coalescer)
      → occupied c' ≡ occupied c
      → c'.size ≡ c.size
      → Run cap 1 (numbers c) 0 (numbers c')
  same-Run c' e f =
      subst (λ w. Run cap 1 (numbers c) 0 w)
        (ap₂ (λ x y. record { entries = x; size = y; threads = [] }) (sym e) (sym f))
        (start (numbers c))

  stored_old-size : (k : EphemeralKey) (m : HubMessage) → (stored c k m true).size ≡ c.size
  unfolding store count_offer
  stored_old-size k m = refl

  -- From a sound coalescer, with no other call under way, Offer takes no step, or the three of a new
  -- entry.
  pub offer-Run :
      (k : EphemeralKey) (o : Option HubMessage)
      → (n : ℕ) × Run cap 1 (numbers c) n (numbers (offer c k o).0)
  unfolding offer
  offer-Run k none = (0, start (numbers c))
  offer-Run k (some m) = elim (Bool-cases (str_eq k.0 "" || str_eq k.1 "")) [
    | inl unnamed ↦ rw unnamed (0, start (numbers c))
    | inr named ↦ elim (offer_cases cap small c s k m named) [
      | inl (a, full, e) ↦ rw e (0, start (numbers c))
      | inr (inl (a, room, e)) ↦
          rw e (3, stored_new-Run k m room (store_new-IsSound cap small c s k m a room).1)
      | inr (inr (old, p, e)) ↦ rw e (
        0,
        same-Run (stored c k m true) (store_old-IsSound cap small c s k m old p).1
            (stored_old-size k m),
      )
    ]
  ]

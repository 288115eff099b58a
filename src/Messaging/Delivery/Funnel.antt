-- ===== src/Messaging/Delivery/Funnel.antt =====
-- messaging/dispatcher.go, messaging/client_delivery.go and overload/overload_metrics.go: what the check of the
-- funnel says of a broadcast and of a message for one connection.
use go_wsc.Base.{
  ℕ, suc, ◌+◌, ◌≤◌, String, ◌≡◌, refl, ap, ◌∙◌, inl, inr, Bool, true, false, not, ◌||◌, some, List,
  [], ◌∷◌, ◌++◌, arith, eqb, str_eq, if◌then◌else◌, Bool-cases, Option-cases, nat_eq, string_eq,
  pair_eq, length,
}
use go_wsc.Models.HubMessage.{DeliveryGuarantee, HubMessage, resolve_guarantee}
use go_wsc.Overload.Admission.{admit}
use go_wsc.Overload.Metrics.{bucket_index}
use go_wsc.Overload.Metrics.Tally.{hit}
use go_wsc.Overload.Metrics.Recordings.{
  Recording, admits, delivers, falls_back, loses, judges, record_of, run, hits, picks_admits,
  picks_delivers, picks_falls_back, picks_loses, hit_if,
}
use go_wsc.Overload.Metrics.Funnel.{outs}
use go_wsc.Messaging.Delivery.{
  Recipient, Host, is_ephemeral, update_metrics, try_send_to, finish_send,
}
use go_wsc.Messaging.Delivery.FanOut.{Reached, is_passed, count_sent, fan_out_one, fan_out}
use go_wsc.Messaging.Delivery.Sends.{admit_message}
use go_wsc.Messaging.Delivery.Accounted.{outcome, offered-metrics}

-- Recordings that admit nothing, and let a number of messages of a guarantee out.
pub record LetsOut (g : DeliveryGuarantee) (n : ℕ) (es : List (ℕ × Recording)) : Type 0 where
  pub admits_none : (i : ℕ) → hits picks_admits i es ≡ 0
  pub lets_out : (i : ℕ) → outs es i ≡ (if eqb (bucket_index g) i then n else 0)
  pub short : length es ≤ suc n

pub no_recordings : (g : DeliveryGuarantee) → LetsOut g 0 []
no_recordings g = record {
  admits_none = λ i. refl;
  lets_out = λ i. ground arith;
  short = omega arith;
}

-- One more that is let out.
pub one_more_out :
    (g : DeliveryGuarantee) (random n : ℕ) (e : Recording) (es : List (ℕ × Recording))
    → ((i : ℕ) → hit_if i (picks_admits e) ≡ 0)
    → ((i : ℕ)
        → hit_if i (picks_delivers e) + hit_if i (picks_falls_back e) + hit_if i (picks_loses e)
          ≡ hit i g)
    → LetsOut g n es
    → LetsOut g (suc n) ((random, e) ∷ es)
one_more_out g random n e es none_in one_out h = record {
  admits_none = λ i. omega (arith, h.admits_none i, none_in i);
  lets_out = λ i. ground (arith, h.lets_out i, one_out i);
  short = omega (arith, h.short);
}

outcome_out :
    (handler : Bool) (user_id : String) (g : DeliveryGuarantee) (sent : Bool) (random n : ℕ)
    (es : List (ℕ × Recording))
    → is_ephemeral g ≡ false
    → LetsOut g n es
    → LetsOut g (suc n) ((random, outcome handler user_id g sent) ∷ es)
outcome_out handler user_id g true random n es reliable h =
    one_more_out g random n (delivers g) es (λ i. refl) (λ i. omega arith) h
outcome_out handler user_id g false random n es reliable h =
    rw reliable (elim (Bool-cases (str_eq user_id "" || not handler)) [
      | inl lost ↦ rw lost (one_more_out g random n (loses g) es (λ i. refl) (λ i. omega arith) h)
      | inr kept ↦
          rw kept (one_more_out g random n (falls_back g) es (λ i. refl) (λ i. omega arith) h)
    ])

module _ {ℓ} {D : Type ℓ} where
  -- The connections that a broadcast does not pass over.
  abbrev pub reached : List (ℕ × Recipient D) → ℕ
  reached [] = 0
  reached ((random, rc) ∷ rs) = if is_passed rc then reached rs else suc (reached rs)

  count_sent-metrics :
      (frame : D) (r : (Host D × Recipient D) × Bool) (done : Reached D)
      → (count_sent frame r done).host.metrics ≡ r.0.0.metrics
  unfolding count_sent
  count_sent-metrics frame ((h, rc), true) done = refl
  count_sent-metrics frame ((h, rc), false) done = refl

  module _ (frame : D) (msg : HubMessage) (g : DeliveryGuarantee)
      (reliable : is_ephemeral g ≡ false) where
    fan_out_one-passed :
        (random : ℕ) (rc : Recipient D) (done : Reached D)
        → is_passed rc ≡ true
        → fan_out_one frame msg g (random, rc) done
          ≡ record done { recipients = done.recipients ++ rc ∷ [] }
    unfolding fan_out_one
    fan_out_one-passed random rc done e = rw e refl

    fan_out_one-takes :
        (random : ℕ) (rc : Recipient D) (done : Reached D)
        → is_passed rc ≡ false
        → fan_out_one frame msg g (random, rc) done
          ≡ count_sent frame (finish_send random (some msg) g (try_send_to frame done.host rc)) done
    unfolding fan_out_one
    fan_out_one-takes random rc done e = rw e refl

    -- The recordings of the loop, the last one first in time.
    pub fan_out-LetsOut :
        (rs : List (ℕ × Recipient D)) (done : Reached D)
        → (es : List (ℕ × Recording)) × ((fan_out frame msg g rs done).host.metrics
            ≡ run es done.host.metrics)
          × LetsOut g (reached rs) es
    unfolding fan_out run
    fan_out-LetsOut [] done = ([], refl, no_recordings g)
    fan_out-LetsOut ((random, rc) ∷ rs) done = elim (Bool-cases (is_passed rc)) [
      | inl passed ↦
          let (es, metrics, out) =
            fan_out-LetsOut rs (record done { recipients = done.recipients ++ rc ∷ [] }) in
          (
            es,
            ap (λ d. (fan_out frame msg g rs d).host.metrics)
                  (fan_out_one-passed random rc done passed)
                ∙ metrics,
            rw passed out,
          )
      | inr takes ↦
          let r = finish_send random (some msg) g (try_send_to frame done.host rc) in
          let (es, metrics, out) = fan_out-LetsOut rs (count_sent frame r done) in
          let e = outcome done.host.offline_handler rc.user_id g r.1 in
          (
            (random, e) ∷ es,
            ap (λ d. (fan_out frame msg g rs d).host.metrics)
                  (fan_out_one-takes random rc done takes)
                ∙ metrics
                ∙ ap (run es) (
                    count_sent-metrics frame r done
                    ∙ offered-metrics random frame msg g done.host rc),
            rw takes (
                outcome_out done.host.offline_handler rc.user_id g r.1 random (reached rs) es
                  reliable out),
          )
    ]

  -- The recordings of an admission.
  pub admit_message-run :
      (random : ℕ) (msg : HubMessage) (is_broadcast : Bool) (h : Host D)
      → (js : List (ℕ × Recording)) × ((admit_message random msg is_broadcast h).0.metrics
          ≡ run ((random, admits (resolve_guarantee msg)) ∷ js) h.metrics)
        × LetsOut (resolve_guarantee msg) 0 js
  unfolding admit_message update_metrics run record_of
  admit_message-run random msg is_broadcast h = elim (Option-cases h.gate) [
    | inl e ↦ rw e ([], refl, no_recordings (resolve_guarantee msg))
    | inr (gate, e) ↦ rw e (
      (0, judges (admit gate msg is_broadcast)) ∷ [],
      refl,
      record { admits_none = λ i. refl; lets_out = λ i. ground arith; short = omega arith },
    )
  ]

-- ===== src/Messaging/Delivery/Consistent.antt =====
-- messaging/dispatcher.go, messaging/client_delivery.go and overload/overload_metrics.go: what the check of the
-- funnel says of a broadcast, and of a message for one connection.
use go_wsc.Base.{
  ℕ, ◌+◌, ◌^◌, ◌<◌, String, ◌≡◌, refl, sym, ap, ◌∙◌, ◌↔◌, ◌⊎◌, inl, inr, Bool, true, false, Option,
  List, [], ◌∷◌, ◌++◌, arith, eqb, if◌then◌else◌, nat_eq, string_eq, pair_eq, length-append,
}
use go_wsc.Base.Int.{ℤ, pos}
use mathlib.Core.Path.{subst}
use go_wsc.Models.HubMessage.{
  DeliveryGuarantee, standard, guaranteed, HubMessage, resolve_guarantee,
}
use go_wsc.Overload.Metrics.{
  OverloadMetrics, zero_metrics, bucket_index, delivery_funnel_consistent,
}
use go_wsc.Overload.Metrics.Tally.{hit}
use go_wsc.Overload.Metrics.Recordings.{
  Recording, admits, record_of, run, hits, picks_admits, picks_delivers, picks_falls_back,
  picks_loses,
}
use go_wsc.Overload.Metrics.Funnel.{outs, Balances, delivery_funnel_consistent-run}
use go_wsc.Messaging.Delivery.{Recipient, Host, is_ephemeral}
use go_wsc.Messaging.Delivery.FanOut.{broadcast_to}
use go_wsc.Messaging.Delivery.Sends.{admit_message, send_to_client_serialized}
use go_wsc.Messaging.Delivery.Settled.{sent_count, send_to_client_serialized-Settles}
use go_wsc.Messaging.Delivery.Funnel.{LetsOut, reached, fan_out-LetsOut, admit_message-run}

hits-append :
    (picks : Recording → Option DeliveryGuarantee) (i : ℕ) (xs ys : List (ℕ × Recording))
    → hits picks i (xs ++ ys) ≡ hits picks i xs + hits picks i ys
hits-append picks i [] ys = omega arith
hits-append picks i ((random, e) ∷ xs) ys = omega (arith, hits-append picks i xs ys)

outs-append : (i : ℕ) (xs ys : List (ℕ × Recording)) → outs (xs ++ ys) i ≡ outs xs i + outs ys i
outs-append i xs ys = omega (
  arith,
  hits-append picks_delivers i xs ys,
  hits-append picks_falls_back i xs ys,
  hits-append picks_loses i xs ys,
)

run-append :
    (xs ys : List (ℕ × Recording)) (m : OverloadMetrics) → run (xs ++ ys) m ≡ run ys (run xs m)
unfolding run
run-append [] ys m = refl
run-append ((random, e) ∷ xs) ys m = run-append xs ys (record_of random e m)

-- A standard or a guaranteed message.
abbrev pub IsReliable : DeliveryGuarantee → Type 0
IsReliable g = (g ≡ standard) ⊎ (g ≡ guaranteed)

reliable_bucket :
    (g : DeliveryGuarantee) → IsReliable g → (bucket_index g ≡ 0) ⊎ (bucket_index g ≡ 2)
unfolding bucket_index
reliable_bucket g (inl e) = inl (ap bucket_index e)
reliable_bucket g (inr e) = inr (ap bucket_index e)

reliable_kept : (g : DeliveryGuarantee) → IsReliable g → is_ephemeral g ≡ false
unfolding is_ephemeral
reliable_kept g (inl e) = ap is_ephemeral e
reliable_kept g (inr e) = ap is_ephemeral e

-- Of a reliable message that is admitted once, the funnel is consistent when one is let out.
admitted_once :
    (g : DeliveryGuarantee) (random n : ℕ) (js es : List (ℕ × Recording))
    → IsReliable g
    → LetsOut g 0 js
    → LetsOut g n es
    → n < 2 ^ 59
    → (delivery_funnel_consistent (run es (run ((random, admits g) ∷ js) zero_metrics))).0 ≡ true
      ↔ n ≡ 1
admitted_once g random n js es reliable nothing out small =
    let first : List (ℕ × Recording) = (random, admits g) ∷ js in
    let check =
      delivery_funnel_consistent-run (first ++ es)
        (omega (arith, length-append first es, nothing.short, out.short)) in
    let ins : (i : ℕ) → hits picks_admits i (first ++ es) ≡ hit i g = λ i.
      omega
        (arith, hits-append picks_admits i first es, nothing.admits_none i, out.admits_none i) in
    let let_out : (i : ℕ) → outs (first ++ es) i ≡ (if eqb (bucket_index g) i then n else 0) =
      λ i. ground (arith, outs-append i first es, nothing.lets_out i, out.lets_out i) in
    let balance : (i : ℕ)
        → Balances (first ++ es) i ↔ (hit i g ≡ (if eqb (bucket_index g) i then n else 0)) =
      λ i. (λ e. sym (ins i) ∙ e ∙ let_out i, λ e. ins i ∙ e ∙ sym (let_out i)) in
    rw (← run-append first es zero_metrics) (
      λ e.
          let both = check.0 e in
          elim (reliable_bucket g reliable) [
            | inl z ↦ ground (arith, z, (balance 0).0 both.0)
            | inr z ↦ ground (arith, z, (balance 2).0 both.1)
          ],
      λ e. check.1 ((balance 0).1 (ground (arith, e)), (balance 2).1 (ground (arith, e))),
    )

-- What is said of some counters is said of equal ones.
consistent_at :
    (m n : OverloadMetrics) (P : Type 0)
    → m ≡ n
    → (delivery_funnel_consistent n).0 ≡ true ↔ P
    → (delivery_funnel_consistent m).0 ≡ true ↔ P
consistent_at m n P e h = (
  λ t. h.0 (subst (λ x. (delivery_funnel_consistent x).0 ≡ true) e t),
  λ p. subst (λ x. (delivery_funnel_consistent x).0 ≡ true) (sym e) (h.1 p),
)

sent_count_small : (sent : Bool) → sent_count sent < 2 ^ 59
sent_count_small true = omega arith
sent_count_small false = omega arith

sent_count_one : (sent : Bool) → sent_count sent ≡ 1 ↔ sent ≡ true
sent_count_one true = (λ e. refl, λ e. refl)
sent_count_one false = (λ e. ground (arith, e), λ e. ground (arith, e))

module _ {ℓ} {D : Type ℓ} where
  -- From counters at zero, a standard or guaranteed broadcast, whatever the verdict of the gate,
  -- leaves the funnel consistent exactly when the number of connections that it is offered to is
  -- one, for fewer than 2 to the 59th of them: it is admitted once, and counted out for each
  -- connection.
  pub broadcast_to-consistent :
      (random : ℕ) (frame : D) (msg : HubMessage) (rs : List (ℕ × Recipient D)) (h : Host D)
      → IsReliable (resolve_guarantee msg)
      → h.metrics ≡ zero_metrics
      → reached rs < 2 ^ 59
      → (delivery_funnel_consistent
            (broadcast_to frame msg
              (resolve_guarantee msg)
              rs
              (admit_message random msg true h).0).host.metrics).0
          ≡ true
        ↔ reached rs ≡ 1
  unfolding broadcast_to
  broadcast_to-consistent random frame msg rs h reliable fresh small =
      let g = resolve_guarantee msg in
      let (js, admitted, nothing) = admit_message-run random msg true h in
      let (es, counted, out) = fan_out-LetsOut frame msg g (reliable_kept g reliable) rs (record {
        host = (admit_message random msg true h).0;
        recipients = [];
        success_count = pos 0;
        fail_count = pos 0;
      }) in
      let once = admitted_once g random (reached rs) js es reliable nothing out small in
      consistent_at _ (run es (run ((random, admits g) ∷ js) zero_metrics)) (reached rs ≡ 1)
        (counted ∙ ap (run es) (admitted ∙ ap (run ((random, admits g) ∷ js)) fresh)) once

  -- From counters at zero, a standard or guaranteed message for one open WebSocket connection
  -- leaves the funnel consistent exactly when the connection has taken it, whatever the gate, the
  -- coalescer and the frame at hand: what is handed over to the offline store is not counted out.
  pub send_to_client_serialized-consistent :
      (if_not_empty : String → String → String) (marshal : HubMessage → Option D) (randoms : ℕ × ℕ)
      (random : ℕ) (pre : Option D) (msg : HubMessage) (now : ℤ) (h : Host D) (rc : Recipient D)
      → IsReliable (resolve_guarantee msg)
      → rc.client.closed ≡ false
      → rc.is_sse ≡ false
      → h.metrics ≡ zero_metrics
      → let r = send_to_client_serialized if_not_empty marshal randoms random pre msg now (h, rc) in
        (delivery_funnel_consistent r.0.0.metrics).0 ≡ true ↔ r.1 ≡ true
  send_to_client_serialized-consistent if_not_empty marshal randoms random pre msg now h rc reliable
        live ws fresh =
      let g = resolve_guarantee msg in
      let r = send_to_client_serialized if_not_empty marshal randoms random pre msg now (h, rc) in
      let (js, admitted, nothing) = admit_message-run randoms.0 msg false h in
      let (es, counted, out) =
        send_to_client_serialized-Settles if_not_empty marshal randoms pre msg now h rc
          (reliable_kept g reliable) ws random live in
      let once =
        admitted_once g randoms.0 (sent_count r.1) js es reliable nothing out
          (sent_count_small r.1) in
      let same : r.0.0.metrics ≡ run es (run ((randoms.0, admits g) ∷ js) zero_metrics) =
        counted ∙ ap (run es) (admitted ∙ ap (run ((randoms.0, admits g) ∷ js)) fresh) in
      consistent_at r.0.0.metrics (run es (run ((randoms.0, admits g) ∷ js) zero_metrics))
        (r.1 ≡ true) same
        (λ e. (sent_count_one r.1).0 (once.0 e), λ e. once.1 ((sent_count_one r.1).1 e))

-- ===== src/Broker/Consumer.antt =====
-- broker/consumer.go: what the consumer does with an envelope of the bus. Delivery is the hub's, passed
-- in by its caller, over a state of its own; its result is `none` for nil, or the list of errors.
pub mod Handling
pub mod Once
use go_wsc.Base.{
  ℕ, String, Bool, true, false, Option, none, some, List, ◌∷◌, if◌then◌else◌, nat_eq, string_eq,
  pair_eq, [], ◌>>=◌,
}
use go_wsc.Routing.{with_fanout_sourced}
use go_wsc.Broker.Envelope.{EnvelopeError, validate_envelope}
use go_wsc.Models.HubMessage.{HubMessage, is_express, resolve_guarantee}
use go_wsc.Routing.{Context}
use go_wsc.Broker.Dedup.{DedupWindow, seen, unmark}
use go_wsc.Broker.Envelope.{DeliverEnvelope, restore_route_ctx, format_dedup_key}

module _ {ℓ} {W : Type ℓ}
    (deliver : Context → HubMessage → Bool → W → W × Option (List String)) where
  -- The end of `handle` for a message whose key may be marked: the errors are joined, none for nil.
  unfoldable pub finish :
      String → Bool → DedupWindow → W × Option (List String) → DedupWindow × W × List String
  unfolding unmark
  finish key marked d (w, none) = (d, w, [])
  finish key marked d (w, some []) = (d, w, [])
  finish key marked d (w, some (e ∷ es)) = (if marked then unmark key d else d, w, e ∷ es)

  unfoldable pub handle_message :
      Context
      → DeliverEnvelope
      → HubMessage
      → ℕ
      → DedupWindow
      → W
      → Option (DedupWindow × W × List String)
  unfolding seen finish restore_route_ctx format_dedup_key is_express resolve_guarantee
  handle_message ctx env msg now d w =
      let key = format_dedup_key msg in
      let result = deliver (restore_route_ctx ctx msg) msg env.exclude_sender w in
      if is_express (resolve_guarantee msg) then some (finish key false d result) else do
        (d', first) ← seen key now d
        some (if first then finish key true d' result else (d', w, []))

  -- Behind the checks, by what they found and by the message, which a checked envelope has.
  unfoldable pub handle_checked :
      Context
      → DeliverEnvelope
      → Option EnvelopeError
      → Option HubMessage
      → ℕ
      → DedupWindow
      → W
      → Option (DedupWindow × W × List String)
  unfolding handle_message
  handle_checked ctx env (some err) o now d w = some (d, w, [])
  handle_checked ctx env none none now d w = some (d, w, [])
  handle_checked ctx env none (some msg) now d w = handle_message ctx env msg now d w

  -- The window, the hub and the errors after an envelope at a time; `none` is a loop in the window that
  -- does not end. The intent that the source computes and drops is left out.
  unfoldable pub handle :
      Context
      → Option DeliverEnvelope
      → ℕ
      → DedupWindow
      → W
      → Option (DedupWindow × W × List String)
  unfolding handle_checked validate_envelope
  handle ctx none now d w = some (d, w, [])
  handle ctx (some env) now d w =
      handle_checked ctx env (validate_envelope (some env)) env.message now d w

  unfoldable pub handle_broadcast :
      Context
      → Option DeliverEnvelope
      → ℕ
      → DedupWindow
      → W
      → Option (DedupWindow × W × List String)
  unfolding handle with_fanout_sourced
  handle_broadcast ctx = handle (with_fanout_sourced ctx)

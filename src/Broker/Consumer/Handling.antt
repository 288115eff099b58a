-- ===== src/Broker/Consumer/Handling.antt =====
-- broker/consumer.go: the ends of `handle`, for each kind of message.
use go_wsc.Base.{
  ℕ, ◌+◌, ◌≤◌, ◌<◌, String, ◌≡◌, refl, Bool, true, false, Option, none, some, List, [], ◌∷◌, nat_eq,
  string_eq, pair_eq,
}
use go_wsc.Broker.Dedup.Answers.{Answered-old}
use go_wsc.Models.HubMessage.{HubMessage, is_express, resolve_guarantee}
use go_wsc.Routing.{Context}
use go_wsc.Broker.Dedup.{DedupWindow}
use go_wsc.Broker.Dedup.Horizon.{IsTuned, horizon}
use go_wsc.Broker.Dedup.Answers.{seen-Answered}
use go_wsc.Broker.Envelope.{DeliverEnvelope, validate_envelope, restore_route_ctx, format_dedup_key}
use go_wsc.Broker.Consumer.{finish, handle_message, handle_checked, handle}

-- The window `e` and the errors returned after a delivery from the window `d`: after a failure the key
-- is free again, and otherwise it is remembered for more than a period.
abbrev pub Settled :
    String → ℕ → DedupWindow → DedupWindow → Option (List String) → List String → Type 0
Settled key now d e none errors = (now + d.rollover < horizon key e) × (errors ≡ [])
Settled key now d e (some []) errors = (now + d.rollover < horizon key e) × (errors ≡ [])
Settled key now d e (some (x ∷ xs)) errors = (horizon key e ≡ 0) × (errors ≡ x ∷ xs)

module _ {ℓ} {W : Type ℓ} (deliver : Context → HubMessage → Bool → W → W × Option (List String))
    (ctx : Context) (env : DeliverEnvelope) (msg : HubMessage)
    (valid : validate_envelope (some env) ≡ none) (carried : env.message ≡ some msg) where
  abbrev delivery : W → W × Option (List String)
  delivery = deliver (restore_route_ctx ctx msg) msg env.exclude_sender

  pub handle-eq :
      (now : ℕ) (d : DedupWindow) (w : W)
      → handle deliver ctx (some env) now d w ≡ handle_message deliver ctx env msg now d w
  unfolding handle handle_checked
  handle-eq now d w = rw (valid, carried) refl

  -- An ephemeral or aggregatable message is delivered on every arrival, and the window stays as it
  -- was.
  pub handle-express :
      (now : ℕ) (d : DedupWindow) (w : W)
      → is_express (resolve_guarantee msg) ≡ true
      → (errors : List String) × (handle deliver ctx (some env) now d w
          ≡ some (d, (delivery w).0, errors))
  unfolding handle_message finish
  handle-express now d w x = rw (handle-eq now d w) (rw x (go (delivery w)))
    where
      go :
          (r : W × Option (List String))
          → (errors : List String) × (some (finish deliver (format_dedup_key msg) false d r)
              ≡ some (d, r.0, errors))
      go (w, none) = ([], refl)
      go (w, some []) = ([], refl)
      go (w, some (e ∷ es)) = (e ∷ es, refl)

  module _ (reliable : is_express (resolve_guarantee msg) ≡ false) (d : DedupWindow) (t : IsTuned d)
      (now : ℕ) (s : d.last_swap ≤ now) where
    -- A reliable message whose key the window still remembers is skipped: the hub does not see it
    -- and no error is returned.
    pub handle-duplicate :
        (w : W)
        → now < horizon (format_dedup_key msg) d
        → (e : DedupWindow) × (handle deliver ctx (some env) now d w ≡ some (e, w, []))
    unfolding handle_message
    handle-duplicate w h =
        let (e, first, q, a) = seen-Answered (format_dedup_key msg) now d t s in
        let old = Answered-old (format_dedup_key msg) now d e first a h in
        (e, rw (handle-eq now d w) (rw (reliable, q, old) refl))

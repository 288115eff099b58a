-- ===== src/Broker/Consumer/Once.antt =====
-- broker/consumer.go and broker/dedup.go: a delivered message that the bus sends again.
use go_wsc.Base.{
  ℕ, ◌+◌, ◌≤◌, ◌<◌, String, ◌≡◌, refl, Bool, true, false, Option, none, some, List, [], ◌∷◌, arith,
  nat_eq, string_eq, pair_eq,
}
use go_wsc.Models.HubMessage.{HubMessage, is_express, resolve_guarantee}
use go_wsc.Routing.{Context}
use go_wsc.Broker.Dedup.{DedupWindow}
use go_wsc.Broker.Dedup.Horizon.{IsTuned, horizon}
use go_wsc.Broker.Dedup.Answers.{seen-Answered, Answered-new}
use go_wsc.Broker.Dedup.Runs.{Call, run, Between, run-remembers}
use go_wsc.Broker.Envelope.{DeliverEnvelope, validate_envelope, restore_route_ctx, format_dedup_key}
use go_wsc.Broker.Consumer.{finish, handle_message, handle}
use go_wsc.Broker.Consumer.Handling.{handle-eq, handle-duplicate}

-- The result of a delivery has an error.
abbrev pub failed : Option (List String) → Bool
failed none = false
failed (some []) = false
failed (some (e ∷ es)) = true

module _ {ℓ} {W : Type ℓ} (deliver : Context → HubMessage → Bool → W → W × Option (List String))
    (ctx : Context) (env : DeliverEnvelope) (msg : HubMessage)
    (valid : validate_envelope (some env) ≡ none) (carried : env.message ≡ some msg)
    (reliable : is_express (resolve_guarantee msg) ≡ false) where
  abbrev delivery : W → W × Option (List String)
  delivery = deliver (restore_route_ctx ctx msg) msg env.exclude_sender

  finish_ok :
      (key : String) (d : DedupWindow) (r : W × Option (List String))
      → failed r.1 ≡ false
      → finish deliver key true d r ≡ (d, r.0, [])
  unfolding finish
  finish_ok key d (w, none) h = refl
  finish_ok key d (w, some []) h = refl
  finish_ok key d (w, some (e ∷ es)) h = absurd (cc h)

  -- A reliable message that is new to the window, and is delivered without an error, is delivered
  -- once: whatever calls come between that do not release its key, handling it again less than a
  -- period later leaves the hub as it is and returns no error.
  pub handle-once :
      (d : DedupWindow) (now later : ℕ) (cs : List Call) (w : W)
      → IsTuned d
      → d.last_swap ≤ now
      → horizon (format_dedup_key msg) d ≤ now
      → failed (delivery w).1 ≡ false
      → Between (format_dedup_key msg) now cs later
      → later < now + d.rollover
      → (e e' : DedupWindow) × (handle deliver ctx (some env) now d w
          ≡ some (e, (delivery w).0, []))
        × (run cs e ≡ some e')
        × ((v : W)
            → (e'' : DedupWindow) × (handle deliver ctx (some env) later e' v ≡ some (e'', v, [])))
  unfolding handle_message
  handle-once d now later cs w t s h ok b soon =
      let key = format_dedup_key msg in
      let (e, first, q, a) = seen-Answered key now d t s in
      let (new, long) = Answered-new key now d e first a h in
      let (e', r, t', s', keeps) =
        run-remembers key now cs later e a.tuned a.started b (omega (arith, long, soon)) in
      (
        e,
        e',
        rw (handle-eq deliver ctx env msg valid carried now d w)
            (rw (reliable, q, new, finish_ok key e (delivery w) ok) refl),
        r,
        λ v.
            handle-duplicate deliver ctx env msg valid carried reliable e' t' later s' v
              (omega (arith, long, soon, keeps)),
      )

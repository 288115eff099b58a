-- ===== src/Broker/Examples.antt =====
-- The theorems on broker/ and routing/ at concrete inputs.
use go_wsc.Base.{
  ℕ, zero, suc, ◌+◌, ◌≤◌, ◌<◌, String, ◌≡◌, refl, ap, Bool, true, false, Option, none, some, List,
  [], ◌∷◌, arith, nat_eq, string_eq, pair_eq,
}
use go_wsc.Broker.Consumer.Once.{handle-once}
use Prim.Native.Char.{code}
use go_wsc.Broker.Dedup.Horizon.{new_dedup_window-horizon}
use go_wsc.Broker.Dedup.Answers.{Answered-new}
use go_wsc.Broker.Dedup.Runs.{Call, see, release}
use go_wsc.Broker.Envelope.Keys.{LacksNul}
use go_wsc.Base.Int.{pos}
use go_wsc.Models.HubMessage.{HubMessage, is_express, resolve_guarantee}
use go_wsc.Models.Samples.{chat, payment}
use go_wsc.Routing.{Context, Route}
use go_wsc.Broker.Dedup.{DedupWindow, new_dedup_window, seen, unmark}
use go_wsc.Broker.Dedup.Horizon.{IsTuned, horizon}
use go_wsc.Broker.Dedup.Answers.{Answered, seen-Answered, unmark-horizon}
use go_wsc.Broker.Dedup.Runs.{run, seen-duplicate}
use go_wsc.Broker.Envelope.{DeliverEnvelope, intent_unset, validate_envelope, format_dedup_key}
use go_wsc.Broker.Envelope.Keys.{format_dedup_key-inj}
use go_wsc.Broker.Consumer.{handle}

abbrev window : DedupWindow
window = new_dedup_window (pos 10) (pos 2) 100

window-IsTuned : IsTuned window
unfolding new_dedup_window
window-IsTuned = record { sharded = omega arith; counted = omega arith; rolls = omega arith }

seen-Answered_example :
    (e : DedupWindow) × (first : Bool) × (seen "k" 103 window ≡ some (e, first))
    × Answered "k" 103 window e first
unfolding new_dedup_window
seen-Answered_example = seen-Answered "k" 103 window window-IsTuned (omega arith)

answered :
    (key : String)
    → (e : DedupWindow) × (first : Bool) × (seen key 103 window ≡ some (e, first))
      × Answered key 103 window e first
unfolding new_dedup_window
answered key = seen-Answered key 103 window window-IsTuned (omega arith)

marked : String → DedupWindow
marked key = (answered key).0

answered-new :
    (key : String)
    → ((answered key).1 ≡ true) × (103 + window.rollover < horizon key (answered key).0)
answered-new key =
    Answered-new key 103 window (answered key).0 (answered key).1 (answered key).3
      (rw new_dedup_window-horizon (omega arith))

marked-seen : (key : String) → seen key 103 window ≡ some (marked key, true)
unfolding marked
marked-seen key = rw (← (answered-new key).0) (answered key).2

abbrev between : List Call
between = see "j" 104 ∷ release "j" ∷ []

seen-duplicate_example :
    (e e' : DedupWindow) × (run between (marked "k") ≡ some e) × (seen "k" 107 e ≡ some (e', false))
unfolding new_dedup_window
seen-duplicate_example =
    seen-duplicate "k" 103 107 between window (marked "k") window-IsTuned (omega arith)
      (marked-seen "k") (omega arith, (refl, omega arith)) (omega arith)

unmark-horizon_example : horizon "k" (unmark "k" window) ≡ 0
unmark-horizon_example = unmark-horizon "k" "k" window window-IsTuned

abbrev envelope_of : HubMessage → DeliverEnvelope
envelope_of m = record {
  intent = intent_unset;
  publisher = "svc";
  exclude_sender = false;
  hops = 1;
  message = some m;
}

abbrev context : Context
context = record { routing = none; fanout_sourced = false }

-- A hub that counts its deliveries and refuses the first.
abbrev deliver : Context → HubMessage → Bool → ℕ → ℕ × Option (List String)
deliver ctx m exclude zero = (1, some ("queue full" ∷ []))
deliver ctx m exclude (suc n) = (suc (suc n), none)

payment-valid : validate_envelope (some (envelope_of payment)) ≡ none
unfolding validate_envelope
payment-valid = refl

handle-once_example :
    (e e' : DedupWindow) × (handle deliver context (some (envelope_of payment)) 103 window 4
      ≡ some (e, 5, []))
    × (run between e ≡ some e')
    × ((v : ℕ)
        → (e'' : DedupWindow) × (handle deliver context (some (envelope_of payment)) 107 e' v
            ≡ some (e'', v, [])))
unfolding validate_envelope resolve_guarantee is_express new_dedup_window format_dedup_key
handle-once_example =
    handle-once deliver context (envelope_of payment) payment refl refl refl window 103 107 between
      4 window-IsTuned (omega arith) (rw new_dedup_window-horizon (omega arith)) refl
      (omega arith, (refl, omega arith)) (omega arith)

remembered : 104 < horizon (format_dedup_key payment) (marked (format_dedup_key payment))
unfolding marked new_dedup_window
remembered = omega (arith, (answered-new (format_dedup_key payment)).1)

started : (marked (format_dedup_key payment)).last_swap ≤ 104
unfolding marked
started = omega (arith, (answered (format_dedup_key payment)).3.started)

marked-IsTuned : IsTuned (marked (format_dedup_key payment))
unfolding marked
marked-IsTuned = (answered (format_dedup_key payment)).3.tuned

b1-LacksNul : LacksNul chat.message_id
b1-LacksNul = (λ h. absurd (cc (ap code h)), (λ h. absurd (cc (ap code h)), tt))

format_dedup_key-inj_example : (chat.message_id ≡ chat.message_id) × (chat.receiver ≡ chat.receiver)
format_dedup_key-inj_example = format_dedup_key-inj chat chat b1-LacksNul b1-LacksNul refl

abbrev route : Route
route = record { app_id = ""; namespace = "ns"; group_ids = "g" ∷ [] }

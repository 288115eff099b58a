-- ===== src/Messaging/Delivery/Accounted.antt =====
-- messaging/delivery_fallback.go, messaging/client_delivery.go and messaging/dispatcher.go: how the deliveries
-- are counted.
use go_wsc.Base.{
  ℕ, String, ◌≡◌, refl, ap, inl, inr, Bool, true, false, not, ◌||◌, some, [], ◌∷◌, ◌++◌, arith,
  str_eq, if◌then◌else◌, Bool-cases, Option-cases, nat_eq, string_eq, pair_eq,
}
use go_wsc.Base.Int.{ℤ}
use go_wsc.Models.HubMessage.{DeliveryGuarantee, HubMessage, message_source_offline}
use go_wsc.Models.Client.{Client, try_send}
use go_wsc.Overload.Metrics.Recordings.{Recording, delivers, falls_back, loses, drops, record_of}
use go_wsc.Messaging.Delivery.{
  Recipient, Host, is_ephemeral, update_metrics, admission_on_delivered,
  store_offline_on_delivery_failure, offline_copy, fall_back, fallback_user,
  route_delivery_fallback, with_client, try_send_to, record_delivery, finish_send,
  try_send_with_fallback,
}

-- What is counted for a message that a connection takes, or does not take.
abbrev pub outcome : Bool → String → DeliveryGuarantee → Bool → Recording
outcome handler user_id g true = delivers g
outcome handler user_id g false =
    if is_ephemeral g
    then drops
    else if str_eq user_id "" || not handler
    then loses g
    else falls_back g

module _ {ℓ} {D : Type ℓ} where
  pub on_delivered-metrics : (h : Host D) → (admission_on_delivered h).metrics ≡ h.metrics
  unfolding admission_on_delivered
  on_delivered-metrics h = elim (Option-cases h.gate) [
    | inl e ↦ rw e refl
    | inr (gate, e) ↦ rw e refl
  ]

  pub store_offline-metrics :
      (msg : HubMessage) (h : Host D)
      → (store_offline_on_delivery_failure msg h).metrics ≡ h.metrics
  unfolding store_offline_on_delivery_failure
  store_offline-metrics msg h = ground arith

  pub try_send_to-metrics :
      (frame : D) (h : Host D) (rc : Recipient D) → (try_send_to frame h rc).0.0.metrics ≡ h.metrics
  unfolding try_send_to with_client
  try_send_to-metrics frame h rc = refl

  fall_back-metrics :
      (random : ℕ) (msg : HubMessage) (user_id : String) (g : DeliveryGuarantee) (h : Host D)
      → (fall_back random msg user_id g h).0.metrics
        ≡ record_of random (outcome h.offline_handler user_id g false) h.metrics
  unfolding fall_back update_metrics record_of
  fall_back-metrics random msg user_id g h = elim (Bool-cases (is_ephemeral g)) [
    | inl e ↦ rw e refl
    | inr e ↦ rw e (elim (Bool-cases (str_eq user_id "" || not h.offline_handler)) [
      | inl lost ↦ rw lost refl
      | inr kept ↦ rw kept (
          ap (record_of random (falls_back g)) (store_offline-metrics (offline_copy user_id msg) h))
    ])
  ]

  -- What the fallback of a refused message counts.
  finish_send-metrics :
      (random : ℕ) (msg : HubMessage) (g : DeliveryGuarantee) (h : Host D) (rc : Recipient D)
      (sent : Bool)
      → (finish_send random (some msg) g ((h, rc), sent)).0.0.metrics
        ≡ record_of random (outcome h.offline_handler rc.user_id g sent) h.metrics
  unfolding finish_send record_delivery update_metrics route_delivery_fallback fallback_user
      record_of
  finish_send-metrics random msg g h rc true =
      on_delivered-metrics (record_delivery random (some msg) g h)
  finish_send-metrics random msg g h rc false = fall_back-metrics random msg rc.user_id g h

  fall_back-offline :
      (random : ℕ) (msg : HubMessage) (user_id : String) (g : DeliveryGuarantee) (h : Host D)
      → is_ephemeral g ≡ false
      → str_eq user_id "" ≡ false
      → h.offline_handler ≡ true
      → str_eq msg.source message_source_offline ≡ false
      → (fall_back random msg user_id g h).0.offline ≡ h.offline ++ offline_copy user_id msg ∷ []
  unfolding fall_back update_metrics store_offline_on_delivery_failure offline_copy
  fall_back-offline random msg user_id g h reliable named handler live =
      elim (Bool-cases (str_eq msg.receiver "")) [
        | inl e ↦ rw (reliable, named, handler, e, named, live) refl
        | inr e ↦ rw (reliable, named, handler, e, e, live) refl
      ]

  -- What a call leaves of a host is accounted.
  abbrev pub IsAccounted :
      ℕ → HubMessage → DeliveryGuarantee → Host D → Recipient D → Host D × Bool → Type 0
  IsAccounted random msg g h rc (h', sent) =
      (h'.metrics ≡ record_of random (outcome h.offline_handler rc.user_id g sent) h.metrics)
      × (sent ≡ false
          → is_ephemeral g ≡ false
          → str_eq rc.user_id "" ≡ false
          → h.offline_handler ≡ true
          → str_eq msg.source message_source_offline ≡ false
          → h'.offline ≡ h.offline ++ offline_copy rc.user_id msg ∷ [])

  finish_send-IsAccounted :
      (random : ℕ) (msg : HubMessage) (g : DeliveryGuarantee) (h : Host D) (rc : Recipient D)
      (s : (Client D × ℤ) × Bool)
      → let r = finish_send random (some msg) g (with_client s h rc) in
        IsAccounted random msg g h rc (r.0.0, r.1)
  unfolding finish_send with_client route_delivery_fallback fallback_user
  finish_send-IsAccounted random msg g h rc ((c, counter), true) = (
    finish_send-metrics random msg g (record h { pending_counter = counter })
        (record rc { client = c }) true,
    λ refused. cc,
  )
  finish_send-IsAccounted random msg g h rc ((c, counter), false) = (
    finish_send-metrics random msg g (record h { pending_counter = counter })
        (record rc { client = c }) false,
    λ refused. fall_back-offline random msg rc.user_id g (record h { pending_counter = counter }),
  )

  pub offered-metrics :
      (random : ℕ) (frame : D) (msg : HubMessage) (g : DeliveryGuarantee) (h : Host D)
      (rc : Recipient D)
      → let r = finish_send random (some msg) g (try_send_to frame h rc) in
        r.0.0.metrics ≡ record_of random (outcome h.offline_handler rc.user_id g r.1) h.metrics
  unfolding try_send_to
  offered-metrics random frame msg g h rc =
      (finish_send-IsAccounted random msg g h rc (try_send frame (rc.client, h.pending_counter))).0

  -- Each message that is offered to a connection is counted once: as delivered when the connection
  -- takes it, and otherwise as dropped when it is ephemeral, as lost when there is no user or no
  -- offline store, and else as handed over. A message of any other guarantee that the connection
  -- does not take, with a store and for a user that is known, is handed over under a receiver,
  -- unless its source is the store.
  pub try_send_with_fallback-IsAccounted :
      (random : ℕ) (frame : D) (msg : HubMessage) (g : DeliveryGuarantee) (h : Host D)
      (rc : Recipient D)
      → let r = try_send_with_fallback random frame (some msg) g h (some rc) in
        IsAccounted random msg g h rc (r.0.0, r.1)
  unfolding try_send_with_fallback try_send_to
  try_send_with_fallback-IsAccounted random frame msg g h rc =
      finish_send-IsAccounted random msg g h rc (try_send frame (rc.client, h.pending_counter))

-- ===== src/Connection/ControlLane.antt =====
-- connection/control_lane.go: messages that must arrive have a channel of their own. A frame is a value of any
-- type; whether the socket is there, and whether it has been closed, come with the client. The writing
-- of a message as JSON is a parameter.
pub mod Reaches
use go_wsc.Base.{
  Bool, true, false, Option, none, some, List, [], ◌∷◌, if◌then◌else◌, nat_eq, string_eq, pair_eq,
  one_of,
}
use go_wsc.Base.Int.{ℤ}
use go_wsc.Models.MessageType.{MessageType}
use go_wsc.Models.MessageType.Content
use go_wsc.Models.MessageType.Signals
use go_wsc.Models.HubMessage.{HubMessage}
use go_wsc.Models.Client.{Client, try_send, try_send_control}

abbrev pub control_message_types : List MessageType
control_message_types =
    Signals.kick_out ∷ Signals.force_offline ∷ Signals.terminate ∷ Content.ack
    ∷ Signals.connection_rejected ∷ Signals.connection_error ∷ Signals.connection_timeout ∷ []

unfoldable pub is_control_message : MessageType → Bool
is_control_message mt = one_of mt control_message_types

unfoldable pub is_disconnect_message : MessageType → Bool
is_disconnect_message mt =
    one_of mt (Signals.kick_out ∷ Signals.force_offline ∷ Signals.terminate ∷ [])

module _ {ℓ} where
  -- A client with its socket, if it has one: whether that is closed.
  pub record Wired (D : Type ℓ) : Type ℓ where
    pub client : Client D
    pub conn : Option Bool

module _ {ℓ} {D : Type ℓ} where
  unfoldable pub with_client : Wired D → (Client D × ℤ) × Bool → (Wired D × ℤ) × Bool
  with_client w ((c, counter), sent) = ((record w { client = c }, counter), sent)

  -- With no room the socket is closed, for a message that ends the connection.
  unfoldable pub close_instead : Option HubMessage → Wired D × ℤ → (Wired D × ℤ) × Bool
  unfolding is_disconnect_message
  close_instead none (w, counter) = ((w, counter), false)
  close_instead (some msg) (w, counter) = elim w.conn [
    | none ↦ ((w, counter), false)
    | some closed ↦
        if is_disconnect_message msg.message_type
        then ((record w { conn = some true }, counter), true)
        else ((w, counter), false)
  ]

  -- One way after the other.
  unfoldable pub or_else :
      (Wired D × ℤ → (Wired D × ℤ) × Bool) → (Wired D × ℤ) × Bool → (Wired D × ℤ) × Bool
  or_else f (s, true) = (s, true)
  or_else f (s, false) = f s

  -- The channel of data, when there is none for control.
  unfoldable pub try_data : D → Wired D × ℤ → (Wired D × ℤ) × Bool
  unfolding with_client try_send
  try_data frame (w, counter) = elim w.client.ctrl_ch [
    | none ↦ with_client w (try_send frame (w.client, counter))
    | some ch ↦ ((w, counter), false)
  ]

  unfoldable pub send_control : D → Option HubMessage → Wired D × ℤ → (Wired D × ℤ) × Bool
  unfolding with_client try_send_control or_else try_data close_instead
  send_control frame msg (w, counter) =
      or_else (close_instead msg)
        (or_else (try_data frame) (with_client w (try_send_control frame (w.client, counter))))

  module _ (marshal : HubMessage → Option D) where
    unfoldable pub send_control_message : HubMessage → Wired D × ℤ → (Wired D × ℤ) × Bool
    unfolding send_control
    send_control_message msg s = elim (marshal msg) [
      | none ↦ (s, false)
      | some frame ↦ send_control frame (some msg) s
    ]

-- ===== src/Broker/Envelope/Keys.antt =====
-- broker/envelope.go: the checks and the deduplication keys of envelopes.
use go_wsc.Base.{
  ◌≤◌, String, ◌≡◌, refl, sym, ap, ap₂, ◌∙◌, ◌≢◌, ◌↔◌, inl, inr, Option, none, some, arith, eq_iff,
  str_eq, Bool-cases, nat_eq, string_eq, pair_eq,
}
use mathlib.Core.Path.{subst}
use go_wsc.Models.HubMessage.{HubMessage}
use go_wsc.Broker.Envelope.{
  DeliverEnvelope, validate_envelope, validate_fields, validate_message, format_dedup_key,
}
use Prim.Native.Char.{Char, nul}
use Prim.Native.String.append.{nil, cons}
use Prim.Native.String.{◌++◌ as ◌<>◌}

-- The text holds no zero byte.
abbrev pub LacksNul : String → Type 0
LacksNul String.[] = Unit
LacksNul (String.◌∷◌ c s) = (c ≢ nul) × LacksNul s

head : String → Option Char
head String.[] = none
head (String.◌∷◌ c s) = some c

tail : String → String
tail String.[] = ""
tail (String.◌∷◌ c s) = s

some_inj : {c d : Char} → Path (Option Char) (some c) (some d) → c ≡ d
some_inj e = cc e

join_inj :
    (a b r s : String)
    → LacksNul a
    → LacksNul b
    → Path String (a <> String.◌∷◌ nul r) (b <> String.◌∷◌ nul s)
    → (a ≡ b) × (r ≡ s)
unfolding head tail
join_inj String.[] String.[] r s la lb e = (refl, ap tail (rw (nil, nil) at e))
join_inj String.[] (String.◌∷◌ d b) r s la lb e =
    absurd (lb.0 (sym (some_inj (ap head (rw (nil, cons) at e)))))
join_inj (String.◌∷◌ c a) String.[] r s la lb e =
    absurd (la.0 (some_inj (ap head (rw (nil, cons) at e))))
join_inj (String.◌∷◌ c a) (String.◌∷◌ d b) r s la lb e =
    let e' : Path String (String.◌∷◌ c (a <> String.◌∷◌ nul r))
        (String.◌∷◌ d (b <> String.◌∷◌ nul s)) =
      rw (cons, cons) at e in
    let (p, q) = join_inj a b r s la.1 lb.1 (ap tail e') in
    (ap₂ String.◌∷◌ (some_inj (ap head e')) p, q)

join-LacksNul : (a r : String) → LacksNul (a <> String.◌∷◌ nul r) → ⊥
join-LacksNul String.[] r l = (rw nil at l).0 refl
join-LacksNul (String.◌∷◌ c a) r l = join-LacksNul a r (rw cons at l).1

-- Two messages whose ids hold no zero byte have the same deduplication key only if both their ids
-- and their receivers are the same.
pub format_dedup_key-inj :
    (m n : HubMessage)
    → LacksNul m.message_id
    → LacksNul n.message_id
    → format_dedup_key m ≡ format_dedup_key n
    → (m.message_id ≡ n.message_id) × (m.receiver ≡ n.receiver)
unfolding format_dedup_key
format_dedup_key-inj m n lm ln e = elim (Bool-cases (str_eq m.receiver "")) [
  | inl p ↦ elim (Bool-cases (str_eq n.receiver "")) [
    | inl q ↦ (rw (p, q) at e, (eq_iff _ _).0 p ∙ sym ((eq_iff _ _).0 q))
    | inr q ↦ absurd (join-LacksNul n.message_id n.receiver (subst LacksNul (rw (p, q) at e) lm))
  ]
  | inr p ↦ elim (Bool-cases (str_eq n.receiver "")) [
    | inl q ↦
        absurd (join-LacksNul m.message_id m.receiver (subst LacksNul (sym (rw (p, q) at e)) ln))
    | inr q ↦ join_inj _ _ _ _ lm ln (rw (p, q) at e)
  ]
]

-- An envelope with a message passes the checks exactly when the message has an id and an app id,
-- the publisher is named, and there were at most two hops.
pub validate_envelope-none :
    (env : DeliverEnvelope) (msg : HubMessage)
    → env.message ≡ some msg
    → (validate_envelope (some env) ≡ none)
      ↔ ((msg.message_id ≢ "") × (env.publisher ≢ "") × (msg.app_id ≢ "") × (env.hops ≤ 2))
unfolding validate_envelope validate_fields validate_message
validate_envelope-none env msg e = rw e (
    ground (
      arith,
      string_eq.agrees_iff msg.message_id "",
      string_eq.agrees_iff env.publisher "",
      string_eq.agrees_iff msg.app_id "",
    ))

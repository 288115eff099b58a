-- ===== src/Messaging/Ack/Live.antt =====
-- messaging/ack.go: the pending messages are live, whatever calls are made.
use go_wsc.Base.{
  ℕ, ◌<◌, String, ◌≡◌, refl, sym, ap, ◌∙◌, inl, inr, true, false, Option, none, some, arith, eq_iff,
  eqb, str_eq, eqb_iff, Bool-cases, Option-cases, nat_eq, string_eq, pair_eq,
}
use go_wsc.Base.Int.{ℤ}
use go_wsc.Base.Map
use go_wsc.Base.Map.{Map}
use mathlib.Core.Path.{subst}
use go_wsc.Messaging.Ack.{
  PendingMessage, AckManager, new_ack_manager_with_options, store_pending, AckMessage, write,
  cancel, acknowledge, confirm_at, confirm_found, confirm_message, remove_found,
  remove_pending_message,
}

-- A message that nobody has acknowledged or cancelled, under its id.
abbrev pub Awaits : String → Option PendingMessage → Type 0
Awaits id none = ⊥
Awaits id (some pm) = (pm.message_id ≡ id) × (pm.ack_chan ≡ none) × (pm.cancelled ≡ false)

-- Each id names a message that waits, and the next place is free.
pub record IsLive (am : AckManager) : Type 0 where
  pub distinct : Map.IsMap am.pending
  pub live :
      (id : String) (place : ℕ)
      → Map.lookup id am.pending ≡ some place
      → Awaits id (Map.lookup place am.places)
  pub used :
      (place : ℕ) (pm : PendingMessage) → Map.lookup place am.places ≡ some pm → place < am.next

Awaits-some :
    (id : String) (o : Option PendingMessage)
    → Awaits id o
    → (pm : PendingMessage) × (o ≡ some pm) × (pm.message_id ≡ id) × (pm.ack_chan ≡ none)
Awaits-some id none h = absurd h
Awaits-some id (some pm) h = (pm, refl, h.0, h.1)

pub new_ack_manager-IsLive :
    (d : ℤ → ℤ → ℤ) (timeout retries expire : ℤ)
    → IsLive (new_ack_manager_with_options d timeout retries expire)
unfolding new_ack_manager_with_options Map.lookup
new_ack_manager-IsLive d timeout retries expire = record {
  distinct = tt;
  live = λ id place e. cc;
  used = λ place pm e. cc;
}

module _ (pm : PendingMessage) (am : AckManager) (s : IsLive am)
    (waiting : Awaits pm.message_id (some pm)) where
  store_live :
      (i : String) (place : ℕ)
      → Map.lookup i (Map.insert pm.message_id am.next am.pending) ≡ some place
      → Awaits i (Map.lookup place (Map.insert am.next pm am.places))
  store_live i place e =
      rw (Map.lookup-insert am.next place pm am.places)
        (elim (Bool-cases (str_eq pm.message_id i)) [
          | inl same ↦
              let newest : am.next ≡ place =
                ground
                  (arith, rw (Map.lookup-insert pm.message_id i am.next am.pending, same) at e) in
              rw ((eqb_iff am.next place).1 newest)
                ((eq_iff pm.message_id i).0 same, waiting.1, waiting.2)
          | inr other ↦
              let still : Map.lookup i am.pending ≡ some place =
                rw (Map.lookup-insert pm.message_id i am.next am.pending, other) at e in
              let older : eqb am.next place ≡ false =
                ground (arith, used_before i place (s.live i place still)) in
              rw older (s.live i place still)
        ])
    where
      used_before :
          (i : String) (place : ℕ) → Awaits i (Map.lookup place am.places) → place < am.next
      used_before i place w =
          let (old, found, _, _) = Awaits-some i (Map.lookup place am.places) w in
          s.used place old found

  pub store_pending-IsLive : IsLive (store_pending pm am)
  unfolding store_pending
  store_pending-IsLive = record {
    distinct = Map.insert-IsMap pm.message_id am.next am.pending s.distinct;
    live = store_live;
    used = λ place q e. elim (Bool-cases (eqb am.next place)) [
      | inl newest ↦ ground (arith, newest)
      | inr older ↦
          omega
            (arith, s.used place q (rw (Map.lookup-insert am.next place pm am.places, older) at e))
    ];
  }

-- A message leaves the pending ones and is changed.
abbrev pub retire : String → ℕ → PendingMessage → AckManager → AckManager
retire id place pm am = record am {
  pending = Map.erase id am.pending;
  places = Map.insert place pm am.places;
}

module _ (id : String) (place : ℕ) (pm new : PendingMessage) (am : AckManager) (s : IsLive am)
    (named : Map.lookup id am.pending ≡ some place)
    (here : Map.lookup place am.places ≡ some pm) where
  named_by :
      (i : String) (p : ℕ)
      → Map.lookup i am.pending ≡ some p
      → Map.lookup p am.places ≡ some pm
      → pm.message_id ≡ i
  named_by i p e f = let w : Awaits i (some pm) = subst (Awaits i) f (s.live i p e) in w.0

  retire_live :
      (i : String) (p : ℕ)
      → Map.lookup i (Map.erase id am.pending) ≡ some p
      → Awaits i (Map.lookup p (Map.insert place new am.places))
  retire_live i p e = elim (Bool-cases (str_eq id i)) [
    | inl same ↦ absurd (ground (arith, rw (Map.lookup-erase id i am.pending, same) at e))
    | inr other ↦
        let still : Map.lookup i am.pending ≡ some p =
          rw (Map.lookup-erase id i am.pending, other) at e in
        rw (Map.lookup-insert place p new am.places) (elim (Bool-cases (eqb place p)) [
          | inl shared ↦ absurd (
              ground (
                arith,
                other,
                eq_iff id i,
                named_by id place named here,
                named_by i place (still ∙ ap some (sym ((eqb_iff place p).0 shared))) here,
              ))
          | inr apart ↦ rw apart (s.live i p still)
        ])
  ]

  retire-IsLive : IsLive (retire id place new am)
  retire-IsLive = record {
    distinct = Map.erase-IsMap id am.pending s.distinct;
    live = retire_live;
    used = λ p q e. elim (Bool-cases (eqb place p)) [
      | inl shared ↦ omega (arith, s.used place pm here, (eqb_iff place p).0 shared)
      | inr apart ↦ s.used p q (rw (Map.lookup-insert place p new am.places, apart) at e)
    ];
  }

-- The message of an id that is pending, and its place.
pub pending_at :
    (id : String) (place : ℕ) (am : AckManager)
    → IsLive am
    → Map.lookup id am.pending ≡ some place
    → (pm : PendingMessage) × (Map.lookup place am.places ≡ some pm)
      × (pm.message_id ≡ id)
      × (pm.ack_chan ≡ none)
pending_at id place am s named = Awaits-some id (Map.lookup place am.places) (s.live id place named)

-- A message whose channel is empty is acknowledged.
abbrev pub answered : AckMessage → PendingMessage → PendingMessage
answered ack pm = record pm { ack_chan = some ack; cancelled = true }

pub confirm_message-retire :
    (id : String) (ack : AckMessage) (place : ℕ) (pm : PendingMessage) (am : AckManager)
    → Map.lookup id am.pending ≡ some place
    → Map.lookup place am.places ≡ some pm
    → pm.ack_chan ≡ none
    → confirm_message id ack am ≡ (retire id place (answered ack pm) am, true)
unfolding confirm_message confirm_found confirm_at acknowledge cancel
confirm_message-retire id ack place pm am named here empty =
    rw (named, confirm_found) (rw (here, confirm_at) (rw (empty, acknowledge) refl))

pub confirm_message-IsLive :
    (id : String) (ack : AckMessage) (am : AckManager)
    → IsLive am
    → IsLive (confirm_message id ack am).0
unfolding confirm_message confirm_found
confirm_message-IsLive id ack am s = elim (Option-cases (Map.lookup id am.pending)) [
  | inl missing ↦ rw (missing, confirm_found) s
  | inr (place, named) ↦
      let (pm, here, _, empty) = pending_at id place am s named in
      rw (confirm_message-retire id ack place pm am named here empty)
        (retire-IsLive id place pm (answered ack pm) am s named here)
]

pub remove_pending_message-IsLive :
    (id : String) (am : AckManager) → IsLive am → IsLive (remove_pending_message id am)
unfolding remove_pending_message remove_found write
remove_pending_message-IsLive id am s = elim (Option-cases (Map.lookup id am.pending)) [
  | inl missing ↦ rw (missing, remove_found) s
  | inr (place, named) ↦
      let (pm, here, _, _) = pending_at id place am s named in
      rw (named, remove_found)
        (rw (here, write) (retire-IsLive id place pm (cancel pm) am s named here))
]

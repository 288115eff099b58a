-- ===== src/Messaging/Ack/Cleanup.antt =====
-- messaging/ack.go: the clean-up of the pending messages whose context has ended, and the shutdown.
use go_wsc.Base.{
  ℕ, String, ◌≡◌, refl, sym, ap, ◌∙◌, inl, inr, Bool, false, Option, none, some, List, [], ◌∷◌,
  arith, eq_iff, str_eq, if◌then◌else◌, Bool-cases, Option-cases, nat_eq, string_eq, pair_eq,
  agrees_refl, one_of, ◌++◌, length,
}
use go_wsc.Base.Int.{ℤ}
use go_wsc.Base.Map
use go_wsc.Base.Map.{Map}
use go_wsc.Messaging.Ack.{
  PendingMessage, AckManager, write, cancel, remove_found, remove_pending_message, is_done,
}
use go_wsc.Messaging.Ack.Live.{IsLive, remove_pending_message-IsLive}

-- The ids of the pending messages whose context has ended.
pub expired : ℤ → Map ℕ PendingMessage → Map String ℕ → List String
unfolding is_done Map.lookup
expired now places [] = []
expired now places ((id, place) ∷ m) =
    (elim (Map.lookup place places) [
      | none ↦ []
      | some pm ↦ if is_done now pm then id ∷ [] else []
    ])
    ++ expired now places m

pub forget : List String → AckManager → AckManager
unfolding remove_found Map.lookup
forget [] am = am
forget (id ∷ ids) am = forget ids (remove_found id (Map.lookup id am.pending) am)

unfoldable pub cleanup_expired : ℤ → AckManager → AckManager × ℕ
unfolding expired forget
cleanup_expired now am = let ids = expired now am.places am.pending in (forget ids am, length ids)

pub cancel_all : Map String ℕ → AckManager → AckManager
unfolding write cancel
cancel_all [] am = am
cancel_all ((id, place) ∷ m) am = cancel_all m (write place cancel am)

unfoldable pub shutdown : AckManager → AckManager
unfolding cancel_all
shutdown am = record (cancel_all am.pending am) { pending = [] }

forget-IsLive : (ids : List String) (am : AckManager) → IsLive am → IsLive (forget ids am)
unfolding forget remove_pending_message
forget-IsLive [] am s = s
forget-IsLive (id ∷ ids) am s =
    forget-IsLive ids (remove_found id (Map.lookup id am.pending) am)
      (remove_pending_message-IsLive id am s)

write-pending :
    (place : ℕ) (f : PendingMessage → PendingMessage) (am : AckManager)
    → (write place f am).pending ≡ am.pending
unfolding write
write-pending place f am = elim (Option-cases (Map.lookup place am.places)) [
  | inl e ↦ rw (e, write) refl
  | inr (pm, e) ↦ rw (e, write) refl
]

remove_found-pending :
    (id k : String) (am : AckManager)
    → Map.lookup k (remove_found id (Map.lookup id am.pending) am).pending
      ≡ (if str_eq id k then none else Map.lookup k am.pending)
unfolding remove_found
remove_found-pending id k am = elim (Option-cases (Map.lookup id am.pending)) [
  | inl e ↦
      rw (e, remove_found)
        (elim (Bool-cases (str_eq id k)) [
          | inl same ↦ rw (same, ← (eq_iff id k).0 same) e
          | inr other ↦ rw other refl
        ])
  | inr (place, e) ↦
      rw (e, remove_found)
        (rw (write-pending place cancel (record am { pending = Map.erase id am.pending }))
          (Map.lookup-erase id k am.pending))
]

forget-pending :
    (ids : List String) (k : String) (am : AckManager)
    → Map.lookup k (forget ids am).pending
      ≡ (if one_of k ids then none else Map.lookup k am.pending)
unfolding forget
forget-pending [] k am = refl
forget-pending (id ∷ ids) k am = ground (
  arith,
  forget-pending ids k (remove_found id (Map.lookup id am.pending) am),
  remove_found-pending id k am,
  eq_iff id k,
  eq_iff k id,
)

-- Whether the message at a place has ended.
abbrev pub ended_at : ℤ → Map ℕ PendingMessage → Option ℕ → Bool
ended_at now places none = false
ended_at now places (some place) = elim (Map.lookup place places) [
  | none ↦ false
  | some pm ↦ is_done now pm
]

one_of-expired :
    (now : ℤ) (places : Map ℕ PendingMessage) (k : String) (m : Map String ℕ)
    → Map.IsMap m
    → one_of k (expired now places m) ≡ ended_at now places (Map.lookup k m)
unfolding expired Map.lookup
one_of-expired now places k [] h = refl
one_of-expired now places k ((id, place) ∷ m) h =
    let rest : one_of k (expired now places m) ≡ ended_at now places (Map.lookup k m) =
      one_of-expired now places k m h.1 in
    elim (Bool-cases (str_eq id k)) [
      | inl same ↦
          let is_id : id ≡ k = (eq_iff id k).0 same in
          let no_more : one_of k (expired now places m) ≡ false =
            rest ∙ ap (ended_at now places) (ap (λ i. Map.lookup i m) (sym is_id) ∙ h.0) in
          elim (Option-cases (Map.lookup place places)) [
            | inl e ↦ rw (e, same, ended_at, e) no_more
            | inr (pm, e) ↦
                rw (e, same, ended_at, e)
                  (elim (Bool-cases (is_done now pm)) [
                    | inl d ↦ rw d (rw (← is_id, agrees_refl id) refl)
                    | inr d ↦ rw d no_more
                  ])
          ]
      | inr other ↦
          let differs : str_eq k id ≡ false = ground (arith, other, eq_iff id k, eq_iff k id) in
          elim (Option-cases (Map.lookup place places)) [
            | inl e ↦ rw (e, other) rest
            | inr (pm, e) ↦
                rw (e, other)
                  (elim (Bool-cases (is_done now pm)) [
                    | inl d ↦ rw (d, differs) rest
                    | inr d ↦ rw d rest
                  ])
          ]
    ]

-- In a live manager a clean-up takes exactly the messages whose context has ended off the pending
-- ones, every other id names the place that it named before, and the manager stays live.
pub cleanup_expired-ended :
    (now : ℤ) (am : AckManager)
    → IsLive am
    → ((k : String)
        → Map.lookup k (cleanup_expired now am).0.pending ≡ (
            if ended_at now am.places (Map.lookup k am.pending)
            then none
            else Map.lookup k am.pending))
      × IsLive (cleanup_expired now am).0
unfolding cleanup_expired
cleanup_expired-ended now am s = (
  λ k.
      forget-pending (expired now am.places am.pending) k am
      ∙ ap (λ b. if b then none else Map.lookup k am.pending)
          (one_of-expired now am.places k am.pending s.distinct),
  forget-IsLive (expired now am.places am.pending) am s,
)

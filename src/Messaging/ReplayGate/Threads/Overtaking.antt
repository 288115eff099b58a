-- ===== src/Messaging/ReplayGate/Threads/Overtaking.antt =====
-- messaging/replay_gate.go: the order in which the held deliveries of a user are made.
use go_wsc.Base.{
  agrees_refl, ℕ, zero, suc, ◌+◌, ◌≤◌, String, ◌≡◌, refl, sym, ap, ◌∙◌, List, [], ◌∷◌, ◌++◌, map,
  arith, ltb, true, nat_eq, string_eq, pair_eq, length, length-append, some,
}
use mathlib.Core.List.{append_assoc, append-nil}
use go_wsc.Base.Map
use go_wsc.Base.Map.{Map}
use go_wsc.Messaging.ReplayGate.{
  ReplayGate, hold, hold_locked, hold_queue, end_locked, end_queue, max_replay_holdout,
}
use go_wsc.Messaging.ReplayGate.Live.{
  IsLive, hold_locked-IsLive, end_locked-IsLive, hold-hold_locked,
}
use go_wsc.Messaging.ReplayGate.Threads.{World, Event, holds, ends, makes, make_at, step, run}

shorter : (a b c n : ℕ) → a ≡ b + suc c → a ≤ n → ltb b n ≡ true
shorter a b c n e h = ground (arith, e, h)

module _ {ℓ} {D : Type ℓ} where
  abbrev pub all_holds : String → List D → List (Event D)
  all_holds user ds = map (holds user) ds

  -- The caller `i` makes `n` deliveries.
  abbrev pub makes_all : ℕ → ℕ → List (Event D)
  makes_all zero i = []
  makes_all (suc n) i = makes i ∷ makes_all n i

  abbrev pub for_user : String → List D → List (String × D)
  for_user user = map (λ d. (user, d))

  -- What a user's held deliveries leave: their queue has grown by them, and each of them is a caller
  -- with nothing in hand.
  record Held (user : String) (queue ds : List D) (w w' : World D) : Type ℓ where
    pub live : IsLive w'.gate
    pub grown : Map.lookup user w'.gate.pending ≡ some (queue ++ ds)
    pub callers : length w'.hands ≡ length w.hands + length ds
    pub same_made : w'.made ≡ w.made

  hold-held :
      (user : String) (d : D) (queue : List D) (g : ReplayGate D)
      → IsLive g
      → Map.lookup user g.pending ≡ some queue
      → ltb (length queue) max_replay_holdout ≡ true
      → (IsLive (hold user d g).0)
        × (Map.lookup user (hold user d g).0.pending ≡ some (queue ++ d ∷ []))
  unfolding hold_locked hold_queue
  hold-held user d queue g l p room = rw (hold-hold_locked user d g l) (
    hold_locked-IsLive user d g l,
    rw (p, room, Map.lookup-insert user user (queue ++ d ∷ []) g.pending, agrees_refl user) refl,
  )

  holds-Held :
      (user : String) (ds queue : List D) (w : World D)
      → IsLive w.gate
      → Map.lookup user w.gate.pending ≡ some queue
      → length (queue ++ ds) ≤ max_replay_holdout
      → Held user queue ds w (run (all_holds user ds) w)
  holds-Held user [] queue w l p h = record {
    live = l;
    grown = rw (append-nil queue) p;
    callers = omega arith;
    same_made = refl;
  }
  holds-Held user (d ∷ ds) queue w l p h =
      let room =
        shorter (length (queue ++ d ∷ ds)) (length queue) (length ds) max_replay_holdout
          (length-append queue (d ∷ ds)) h in
      let (l', p') = hold-held user d queue w.gate l p room in
      let rest = append_assoc queue (d ∷ []) ds in
      let next = step (holds user d) w in
      let r = holds-Held user ds (queue ++ d ∷ []) next l' p' (rw rest h) in
      record {
        live = r.live;
        grown = rw (← rest) r.grown;
        callers =
            omega (arith, r.callers, length-append w.hands ((user, (hold user d w.gate).2) ∷ []));
        same_made = r.same_made;
      }

  run-append : (es fs : List (Event D)) (w : World D) → run (es ++ fs) w ≡ run fs (run es w)
  run-append [] fs w = refl
  run-append (e ∷ es) fs w = run-append es fs (step e w)

  make_at-hand :
      (user : String) (d : D) (queue : List D) (before after : List (String × List D))
      → make_at (length before) (before ++ (user, d ∷ queue) ∷ after)
        ≡ (before ++ (user, queue) ∷ after, (user, d) ∷ [])
  make_at-hand user d queue [] after = refl
  make_at-hand user d queue (x ∷ before) after = rw (make_at-hand user d queue before after) refl

  makes_all-made :
      (user : String) (queue : List D) (before after : List (String × List D)) (w : World D)
      → w.hands ≡ before ++ (user, queue) ∷ after
      → (run (makes_all (length queue) (length before)) w).made ≡ w.made ++ for_user user queue
  makes_all-made user [] before after w e = sym (append-nil w.made)
  makes_all-made user (d ∷ queue) before after w e =
      let made = ap (make_at (length before)) e ∙ make_at-hand user d queue before after in
      makes_all-made user queue before after (step (makes (length before)) w) (ap (λ r. r.0) made)
      ∙ ap (λ xs. (w.made ++ xs) ++ for_user user queue) (ap (λ r. r.1) made)
      ∙ append_assoc w.made ((user, d) ∷ []) (for_user user queue)

  end_locked-queue :
      (user : String) (queue : List D) (g : ReplayGate D)
      → Map.lookup user g.pending ≡ some queue
      → (end_locked user g).1 ≡ queue
  unfolding end_locked end_queue
  end_locked-queue user queue g p = rw p refl

  hold-late :
      (user : String) (late : D) (queue : List D) (g : ReplayGate D)
      → IsLive g
      → Map.lookup user g.pending ≡ some queue
      → (hold user late (end_locked user g).0).2 ≡ late ∷ []
  unfolding end_locked end_queue hold_locked hold_queue
  hold-late user late queue g l p =
      rw (hold-hold_locked user late (end_locked user g).0 (end_locked-IsLive user g l))
        (rw p (rw (Map.lookup-erase user user g.pending, agrees_refl user) refl))

  module _ (user : String) (queue ds : List D) (w : World D) (live : IsLive w.gate)
      (replaying : Map.lookup user w.gate.pending ≡ some queue)
      (room : length (queue ++ ds) ≤ max_replay_holdout) where
    -- The world when the held deliveries have arrived.
    abbrev held : World D
    held = run (all_holds user ds) w

    abbrev arrived : Held user queue ds w held
    arrived = holds-Held user ds queue w live replaying room

    abbrev place : ℕ
    place = length w.hands + length ds

    -- The caller that ends the replay makes all that it has in hand.
    all-made :
        (v : World D) (after : List (String × List D))
        → v.hands ≡ held.hands ++ (user, (end_locked user held.gate).1) ∷ after
        → (run (makes_all (length (queue ++ ds)) place) v).made
          ≡ v.made ++ for_user user (queue ++ ds)
    all-made v after e = rw (← arrived.callers) (
        makes_all-made user (queue ++ ds) held.hands after v (
          e
          ∙ ap (λ q. held.hands ++ (user, q) ∷ after)
              (end_locked-queue user (queue ++ ds) held.gate arrived.grown)))

    late-made :
        (late : D)
        → make_at (suc place) (step (holds user late) (step (ends user) held)).hands ≡ (
          (held.hands ++ (user, (end_locked user held.gate).1) ∷ []) ++ (user, []) ∷ [],
          (user, late) ∷ [],
        )
    late-made late =
        let before = held.hands ++ (user, (end_locked user held.gate).1) ∷ [] in
        let index : suc place ≡ length before = omega (
          arith,
          arrived.callers,
          length-append held.hands ((user, (end_locked user held.gate).1) ∷ []),
        ) in
        ap (λ q. make_at (suc place) (before ++ (user, q) ∷ []))
          (hold-late user late (queue ++ ds) held.gate arrived.live arrived.grown)
        ∙ ap (λ i. make_at i (before ++ (user, late ∷ []) ∷ [])) index
        ∙ make_at-hand user late [] before []

    -- Nobody comes between.
    ends-in_order :
        (run
          (all_holds user ds
            ++ ends user ∷ makes_all (length (queue ++ ds)) (length w.hands + length ds))
          w).made
        ≡ w.made ++ for_user user (queue ++ ds)
    ends-in_order =
        ap (λ w. w.made) (run-append (all_holds user ds) _ w)
        ∙ all-made (step (ends user) held) [] refl
        ∙ ap (λ xs. xs ++ for_user user (queue ++ ds)) arrived.same_made

    -- A delivery that arrives after the unlock comes first.
    ends-overtaken :
        (late : D)
        → (run
            (all_holds user ds
              ++ ends user
                ∷ holds user late
                ∷ makes (suc (length w.hands + length ds))
                ∷ makes_all (length (queue ++ ds)) (length w.hands + length ds))
            w).made
          ≡ w.made ++ (user, late) ∷ for_user user (queue ++ ds)
    ends-overtaken late =
        let waited = step (holds user late) (step (ends user) held) in
        ap (λ w. w.made) (run-append (all_holds user ds) _ w)
        ∙ all-made (step (makes (suc place)) waited) ((user, []) ∷ [])
            (ap (λ r. r.0) (late-made late) ∙ append_assoc held.hands _ _)
        ∙ ap (λ xs. (held.made ++ xs) ++ for_user user (queue ++ ds))
            (ap (λ r. r.1) (late-made late))
        ∙ append_assoc held.made ((user, late) ∷ []) (for_user user (queue ++ ds))
        ∙ ap (λ xs. xs ++ (user, late) ∷ for_user user (queue ++ ds)) arrived.same_made

    -- For a user in replay, with the counter exact, whose queue and the deliveries that arrive have
    -- room: when the replay then ends and nobody comes between, the deliveries made are those that
    -- waited and those that arrived, in their order. When a live delivery arrives after the unlock
    -- of end, it can be made before all of them.
    pub ends-made :
        (late : D)
        → ((run
              (all_holds user ds
                ++ ends user ∷ makes_all (length (queue ++ ds)) (length w.hands + length ds))
              w).made
            ≡ w.made ++ for_user user (queue ++ ds))
          × ((run
                (all_holds user ds
                  ++ ends user
                    ∷ holds user late
                    ∷ makes (suc (length w.hands + length ds))
                    ∷ makes_all (length (queue ++ ds)) (length w.hands + length ds))
                w).made
              ≡ w.made ++ (user, late) ∷ for_user user (queue ++ ds))
    ends-made late = (ends-in_order, ends-overtaken late)

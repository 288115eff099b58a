-- ===== src/Overload/Aggregator/Interleaving/Conserved.antt =====
-- overload/aggregator.go: the messages that offers accept, over steps in any order.
use mathlib.Core.Path.{subst}
use go_wsc.Base.{
  get_or-replicate, ℕ, ◌<◌, ◌≡◌, refl, sym, ap, ap₂, ◌∙◌, inl, inr, Option, none, some, List, [],
  ◌∷◌, ◌++◌, map, if◌then◌else◌, String, Bool-cases, nat_eq, string_eq, pair_eq, ◌==◌, get_or,
  All-get_or, All-replicate,
}
use mathlib.Core.List.{append-nil, append_assoc, map-append}
use native.Mathlib.Decide.{ℕ_discrete}
use go_wsc.Base.Int.{ℤ}
use go_wsc.Base.Map
use go_wsc.Base.Map.{Map, IsMap}
use go_wsc.Base.Shards.{find}
use go_wsc.Overload.Aggregator.{
  MessageAggregator, AggregatorGroup, GroupKey, Payload, shard_of, is_empty, flush_shard,
}
use go_wsc.Overload.Aggregator.Frames.{json_array}
use go_wsc.Overload.Aggregator.Flush.{
  flushed, IsNamed, frames_for, frames_for-append, window_of, flush_shard-frames,
}
use go_wsc.Overload.Aggregator.Interleaving.Accepted.{offer-Offered, Offered-kept}
use go_wsc.Overload.Aggregator.Interleaving.Kept.{
  IsKept, flush-IsKept, find-flush_own, find-flush_other,
}
use go_wsc.Overload.Aggregator.Interleaving.{
  World, Event, offers, flushes, no_pass, accept, offer_at, step, run, nothing_offered,
  accepted_for, payloads_of, waiting,
}

abbrev pub join : List (List Payload) → List Payload
join [] = []
join (ps ∷ pss) = ps ++ join pss

join-append : (xs ys : List (List Payload)) → join (xs ++ ys) ≡ join xs ++ join ys
join-append [] ys = refl
join-append (x ∷ xs) ys =
    ap (λ r. x ++ r) (join-append xs ys) ∙ sym (append_assoc x (join xs) (join ys))

accepted_for-append :
    (k : GroupKey) (xs ys : List (GroupKey × Payload))
    → accepted_for k (xs ++ ys) ≡ accepted_for k xs ++ accepted_for k ys
accepted_for-append k [] ys = refl
accepted_for-append k ((j, p) ∷ xs) ys = elim (Bool-cases (j == k)) [
  | inl same ↦ rw same (ap (λ r. p ∷ r) (accepted_for-append k xs ys))
  | inr other ↦ rw other (accepted_for-append k xs ys)
]

-- What was handed out for `k` is a list of windows; those, and what waits, are what was accepted.
pub record IsConserved (k : GroupKey) (w : World) : Type 0 where
  pub kept : IsKept k w.shards
  pub windows : List (List Payload)
  pub handed : frames_for k w.out ≡ map json_array windows
  pub all_there : join windows ++ waiting k w ≡ accepted_for k w.accepted

join-window : (o : Option AggregatorGroup) → join (window_of o) ≡ payloads_of o
unfolding is_empty
join-window none = refl
join-window (some g) = go g.payloads
  where
    go : (ps : List Payload) → join (if is_empty ps then [] else ps ∷ []) ≡ ps
    go [] = refl
    go (p ∷ ps) = append-nil (p ∷ ps)

payloads-flushed : (o : Option AggregatorGroup) → payloads_of (flushed o) ≡ []
payloads-flushed none = refl
payloads-flushed (some g) = elim (Bool-cases (is_empty g.payloads)) [
  | inl gone ↦ rw gone refl
  | inr stays ↦ rw stays refl
]

module _ (k : GroupKey) (w : World) (c : IsConserved k w) where
  offers-IsConserved :
      (limits : MessageAggregator) (seen : ℤ) (app_id group_id : String) (p : Payload)
      → IsConserved k (step limits (offers seen app_id group_id p) w)
  offers-IsConserved limits seen app_id group_id p =
      let a = record limits { shards = w.shards; group_count = seen } in
      let r = offer_at limits seen app_id group_id p w in
      let (kept, waits) =
        Offered-kept k (app_id, group_id) p w.shards r c.kept
          (offer-Offered a app_id group_id p c.kept.named) in
      record {
        kept = kept;
        windows = c.windows;
        handed = c.handed;
        all_there =
            ap (λ x. join c.windows ++ x) waits
            ∙ sym (append_assoc (join c.windows) _ _)
            ∙ ap (λ x. x ++ accepted_for k (accept r.1 (app_id, group_id) p)) c.all_there
            ∙ sym (accepted_for-append k w.accepted (accept r.1 (app_id, group_id) p));
      }

  -- The batches of the shard `i` add the window of `k`, if that is in the shard.
  flushed-frames :
      (i : ℕ)
      → frames_for k (w.out ++ (flush_shard (get_or w.shards i []) no_pass).1.out)
        ≡ map json_array (c.windows ++ window_of (Map.lookup k (get_or w.shards i [])))
  flushed-frames i =
      let m = get_or w.shards i [] in
      frames_for-append k w.out (flush_shard m no_pass).1.out
      ∙ ap₂ (λ (x y : List Payload). x ++ y) c.handed
          (flush_shard-frames k m no_pass (All-get_or IsMap w.shards i [] tt c.kept.maps)
            (All-get_or IsNamed w.shards i [] tt c.kept.named))
      ∙ sym (map-append json_array c.windows (window_of (Map.lookup k m)))

  flush_own-all_there :
      join (c.windows ++ window_of (find shard_of k w.shards))
        ++ payloads_of (flushed (find shard_of k w.shards))
      ≡ accepted_for k w.accepted
  flush_own-all_there =
      ap₂ (λ (x y : List Payload). x ++ y)
        (join-append c.windows (window_of (find shard_of k w.shards))
          ∙ ap (λ x. join c.windows ++ x) (join-window (find shard_of k w.shards)))
        (payloads-flushed (find shard_of k w.shards))
      ∙ append-nil _
      ∙ c.all_there

  flushes-IsConserved :
      (limits : MessageAggregator) (i : ℕ) → i < 16 → IsConserved k (step limits (flushes i) w)
  unfolding find
  flushes-IsConserved limits i l =
      let kept = flush-IsKept k w.shards c.kept i (rw c.kept.sharded l) in
      elim (ℕ_discrete i (shard_of k)) [
        | yes e ↦ record {
          kept = kept;
          windows = c.windows ++ window_of (Map.lookup k (get_or w.shards i []));
          handed = flushed-frames i;
          all_there =
              subst
                (λ x.
                  join (c.windows ++ window_of (Map.lookup k (get_or w.shards x [])))
                    ++ waiting k (step limits (flushes x) w)
                  ≡ accepted_for k w.accepted)
                (sym e)
                (ap (λ o. join (c.windows ++ window_of (find shard_of k w.shards)) ++ payloads_of o)
                    (find-flush_own k w.shards c.kept)
                  ∙ flush_own-all_there);
        }
        | no n ↦ record {
          kept = kept;
          windows = c.windows;
          handed =
              flushed-frames i
              ∙ ap (λ o. map json_array (c.windows ++ window_of o)) (c.kept.placed i n)
              ∙ ap (map json_array) (append-nil c.windows);
          all_there =
              ap (λ o. join c.windows ++ payloads_of o) (find-flush_other k w.shards c.kept i n)
              ∙ c.all_there;
        }
      ]

-- The flushes are of the 16 shards.
abbrev pub InRange : List Event → Type 0
InRange [] = Unit
InRange (offers seen app_id group_id p ∷ es) = InRange es
InRange (flushes i ∷ es) = (i < 16) × InRange es

run-IsConserved :
    (limits : MessageAggregator) (k : GroupKey) (es : List Event) (w : World)
    → InRange es
    → IsConserved k w
    → IsConserved k (run limits es w)
run-IsConserved limits k [] w h c = c
run-IsConserved limits k (offers seen app_id group_id p ∷ es) w h c =
    run-IsConserved limits k es _ h (offers-IsConserved k w c limits seen app_id group_id p)
run-IsConserved limits k (flushes i ∷ es) w h c =
    run-IsConserved limits k es _ h.1 (flushes-IsConserved k w c limits i h.0)

nothing-IsConserved : (k : GroupKey) → IsConserved k nothing_offered
unfolding find Map.lookup
nothing-IsConserved k = record {
  kept = record {
    sharded = refl;
    maps = All-replicate (IsMap {K = GroupKey} {V = AggregatorGroup}) 16 [] tt;
    named = All-replicate IsNamed 16 [] tt;
    placed = λ i n. rw (get_or-replicate {A = Map GroupKey AggregatorGroup} 16 i []) refl;
  };
  windows = [];
  handed = refl;
  all_there = rw (get_or-replicate {A = Map GroupKey AggregatorGroup} 16 (shard_of k) []) refl;
}

-- Over any steps of offers and of flushes of the 16 shards, from an aggregator without groups, in
-- any order and whatever the offers read of the group counter, for each key: the frames of the
-- batches handed out are the JSON arrays of some windows, and the payloads of those windows,
-- followed by what waits, are the payloads that the offers accepted, in their order. So no accepted
-- message is lost, doubled or reordered.
pub run-conserved :
    (limits : MessageAggregator) (k : GroupKey) (es : List Event)
    → InRange es
    → (windows : List (List Payload)) × (frames_for k (run limits es nothing_offered).out
        ≡ map json_array windows)
      × (join windows ++ waiting k (run limits es nothing_offered)
          ≡ accepted_for k (run limits es nothing_offered).accepted)
run-conserved limits k es h =
    let c = run-IsConserved limits k es nothing_offered h (nothing-IsConserved k) in
    (c.windows, c.handed, c.all_there)

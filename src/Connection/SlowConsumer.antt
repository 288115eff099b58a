-- ===== src/Connection/SlowConsumer.antt =====
-- connection/slow_consumer.go: connections whose channel stays full are warned of, and then evicted. A ratio is
-- the number of ten-thousandths that a client keeps; the clients of the registry are an argument, and so
-- are those that it still has after the round. The calls of the hook are a list of them, the newest
-- last. Nothing in the program closes the channel of frames, and a drain is that of an open one.
pub mod Streaks
pub mod Scans
pub mod Rounds
use go_wsc.Base.{
  ℕ, zero, suc, ◌+◌, ◌-◌, ◌*◌, ◌/◌, ◌%◌, ◌^◌, ◌≤◌, ◌<◌, String, ◌≡◌, refl, sym, ap, ap₂, ◌∙◌, ◌≢◌,
  ◌↔◌, ◌⊎◌, inl, inr, Bool, true, false, not, ◌&&◌, ◌||◌, Option, none, some, List, [], ◌∷◌, ◌++◌,
  map, ◌>>=◌, arith, eq_iff, ltb, leb, eqb, str_eq, if◌then◌else◌, ltb→lt, lt→ltb, leb→le, eqb_iff,
  Bool-cases, Option-cases, Eq, nat_eq, string_eq, pair_eq, ◌==◌, agrees_refl, length,
  length-append, length-set, length-replicate, get_or, get_or-replicate, get_or-set_self,
  get_or-set_ne, set, replicate, All, All-get_or, All-set, All-replicate, total-set, total,
  total-append, one_of, every, one_of-every,
}
use go_wsc.Base.Int.{
  ℤ, pos, negsuc, pos_part, neg_part, ◌+ℤ◌, ◌-ℤ◌, ◌*ℤ◌, ◌≤ℤ◌, ◌<ℤ◌, ltb_ℤ, leb_ℤ, eqb_ℤ, int64,
  int32, +ℤ_parts, -ℤ_parts, eq_of_parts, int_laws, +ℤ-pos, -ℤ-pos, int64-pos,
}
use go_wsc.Base.Map
use go_wsc.Base.Map.{Map}
use go_wsc.Models.Client.{Chan, Client, complete_pending_writes}

-- 0.9, and the number of rounds.
abbrev pub slow_consumer_threshold_ratio : ℤ
slow_consumer_threshold_ratio = pos 9000

abbrev pub slow_consumer_consecutive_threshold : ℤ
slow_consumer_consecutive_threshold = pos 3

pub record SlowConsumerState : Type 0 where
  pub consecutive : ℤ
  pub warned : Bool

-- What a round does about a client.
pub data Measure : Type 0 where
  recovers records warns evicts : Measure

abbrev pub States : Type 0
States = Map String SlowConsumerState

unfoldable pub state_or_new : Option SlowConsumerState → SlowConsumerState
state_or_new none = record { consecutive = pos 0; warned = false }
state_or_new (some s) = s

-- The `switch` of a round, on a client that is slow.
unfoldable pub escalate : SlowConsumerState → Option SlowConsumerState × Measure
escalate s =
    if leb_ℤ slow_consumer_consecutive_threshold s.consecutive
    then (none, evicts)
    else if leb_ℤ (slow_consumer_consecutive_threshold -ℤ pos 1) s.consecutive && not s.warned
    then (some (record s { warned = true }), warns)
    else (some s, records)

-- One round for one client: what is kept of it, and the measure.
unfoldable pub govern : ℤ → Option SlowConsumerState → Option SlowConsumerState × Measure
unfolding state_or_new escalate ◌+ℤ◌
govern ratio o =
    if ltb_ℤ ratio slow_consumer_threshold_ratio
    then (none, recovers)
    else (let s = state_or_new o in
        escalate (record s { consecutive = int64 (s.consecutive +ℤ pos 1) }))

unfoldable pub keep_state : String → Option SlowConsumerState → States → States
unfolding Map.erase Map.insert
keep_state id none states = Map.erase id states
keep_state id (some s) states = Map.insert id s states

module _ {ℓ} where
  pub record Scanned (D : Type ℓ) : Type ℓ where
    pub id : String
    pub client : Client D

  -- The clients, the shared counter, the states and the calls of the hook, as a round leaves them.
  pub record Round (D : Type ℓ) : Type ℓ where
    pub clients : List (Scanned D)
    pub counter : ℤ
    pub states : States
    pub evicted : List String

module _ {ℓ} {D : Type ℓ} where
  -- The frames that wait are taken off the channel, and counted off.
  unfoldable pub drain : Client D × ℤ → Client D × ℤ
  unfolding complete_pending_writes
  drain (c, counter) = elim c.send_chan [
    | none ↦ (c, counter)
    | some ch ↦
        complete_pending_writes (pos (length ch.queue))
          (record c { send_chan = some (record ch { queue = [] }) }, counter)
  ]

  unfoldable pub evict : Bool → Client D × ℤ → Client D × ℤ
  unfolding drain
  evict hook s = if hook then drain s else s

  unfoldable pub apply_measure : Bool → Scanned D → Measure → Round D → Round D
  unfolding evict
  apply_measure hook sc evicts r =
      let (c, counter) = evict hook (sc.client, r.counter) in
      record r {
        clients = r.clients ++ (record sc { client = c }) ∷ [];
        counter = counter;
        evicted = if hook then r.evicted ++ sc.id ∷ [] else r.evicted;
      }
  apply_measure hook sc recovers r = record r { clients = r.clients ++ sc ∷ [] }
  apply_measure hook sc records r = record r { clients = r.clients ++ sc ∷ [] }
  apply_measure hook sc warns r = record r { clients = r.clients ++ sc ∷ [] }

  unfoldable pub scan_one : Bool → Scanned D → Round D → Round D
  unfolding govern Map.lookup keep_state apply_measure
  scan_one hook sc r =
      let (o, m) = govern sc.client.backlog_ratio (Map.lookup sc.id r.states) in
      let r' = apply_measure hook sc m r in record r' { states = keep_state sc.id o r'.states }

  unfoldable pub scan_all : Bool → List (Scanned D) → Round D → Round D
  unfolding scan_one
  scan_all hook [] r = r
  scan_all hook (sc ∷ scs) r = scan_all hook scs (scan_one hook sc r)

-- The states of the clients that the registry still has.
pub clean : (String → Bool) → States → States
clean exists [] = []
clean exists ((id, s) ∷ states) =
    let rest = clean exists states in if exists id then (id, s) ∷ rest else rest

module _ {ℓ} {D : Type ℓ} where
  unfoldable pub scan_once : Bool → List (Scanned D) → (String → Bool) → ℤ → States → Round D
  unfolding scan_all clean
  scan_once hook scs exists counter states =
      let r =
        scan_all hook scs
          (record { clients = []; counter = counter; states = states; evicted = [] }) in
      record r { states = clean exists r.states }

unfoldable pub stats : States → ℕ
stats states = length states

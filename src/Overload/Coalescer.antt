-- ===== src/Overload/Coalescer.antt =====
-- overload/coalescer.go: the latest-wins slots of ephemeral messages. A nil message is
-- `none`, and a shard is the map that its mutex guards. `offer_locked` is the part of Offer under the
-- lock of a shard, and `count_offer` what follows the unlock; `offer` and `drain` are whole calls, one
-- after the other, and Interleaving has calls that overlap.
pub mod Slots
pub mod Interleaving
pub mod Drain
use go_wsc.Base.{
  ℕ, zero, suc, ◌+◌, ◌-◌, ◌*◌, ◌/◌, ◌%◌, ◌^◌, ◌≤◌, ◌<◌, String, ◌≡◌, refl, sym, ap, ◌∙◌, ◌≢◌, ◌↔◌,
  ◌⊎◌, inl, inr, Bool, true, false, not, ◌&&◌, ◌||◌, Option, none, some, List, [], ◌∷◌, ◌++◌, map,
  arith, eq_iff, ltb, leb, eqb, str_eq, if◌then◌else◌, ltb→lt, lt→ltb, leb→le, eqb_iff, Bool-cases,
  Option-cases, Eq, nat_eq, string_eq, pair_eq, ◌==◌, agrees_refl, length, length-append,
  length-set, length-replicate, get_or, get_or-replicate, get_or-set_self, get_or-set_ne, set,
  replicate, All, All-get_or, All-set, All-replicate, total-set, total, total-append, one_of, every,
  one_of-every,
}
use go_wsc.Base.Int.{
  ℤ, pos, negsuc, pos_part, neg_part, ◌+ℤ◌, ◌-ℤ◌, ◌*ℤ◌, ◌≤ℤ◌, ◌<ℤ◌, ltb_ℤ, leb_ℤ, eqb_ℤ, int64,
  int32, +ℤ_parts, -ℤ_parts, eq_of_parts, int_laws, +ℤ-pos, -ℤ-pos, int64-pos,
}
use go_wsc.Base.Map
use go_wsc.Base.Map.{Map}
use go_wsc.Base.Bytes.{fnv_string, fnv_offset_32}
use go_wsc.Base.Shards.{find, put}
use go_wsc.Models.HubMessage.{HubMessage}
use go_wsc.Models.MessageType.{MessageType}

abbrev pub coalescer_shard_count : ℕ
coalescer_shard_count = 16

abbrev pub default_coalescer_capacity : ℤ
default_coalescer_capacity = pos 4096

-- The user's id and the message type.
abbrev pub EphemeralKey : Type 0
EphemeralKey = String × MessageType

unfoldable pub shard_of : EphemeralKey → ℕ
unfolding fnv_string
shard_of k = fnv_string (fnv_string fnv_offset_32 k.0) k.1 % coalescer_shard_count

pub record Coalescer : Type 0 where
  pub shards : List (Map EphemeralKey HubMessage)
  pub capacity : ℤ
  pub size : ℤ
  pub merged : ℤ

unfoldable pub new_coalescer : ℤ → Coalescer
new_coalescer capacity = record {
  shards = replicate coalescer_shard_count [];
  capacity = if leb_ℤ capacity (pos 0) then default_coalescer_capacity else capacity;
  size = pos 0;
  merged = pos 0;
}

is_some {ℓ} : {A : Type ℓ} → Option A → Bool
is_some none = false
is_some (some _) = true

-- The store of a message under its key, once it is accepted.
pub store : Coalescer → EphemeralKey → HubMessage → Coalescer
store c key msg = record c { shards = put shard_of key msg c.shards }

-- After the unlock, for a message that is stored.
pub count_offer : Bool → Coalescer → Coalescer
count_offer true c = record c { merged = int64 (c.merged +ℤ pos 1) }
count_offer false c = record c { size = int64 (c.size +ℤ pos 1) }

-- The coalescer at the unlock, whether the message is stored, and whether its key was present.
offer_locked : Coalescer → EphemeralKey → HubMessage → Coalescer × Bool × Bool
unfolding is_some
offer_locked c key msg =
    let existed = is_some (find shard_of key c.shards) in
    if not existed && leb_ℤ c.capacity c.size
    then (c, false, false)
    else (store c key msg, true, existed)

after_unlock : Coalescer × Bool × Bool → Coalescer × Bool × Bool
unfolding count_offer
after_unlock (c, false, existed) = (c, false, existed)
after_unlock (c, true, existed) = (count_offer existed c, true, existed)

offer_message : Coalescer → EphemeralKey → HubMessage → Coalescer × Bool × Bool
unfolding offer_locked after_unlock
offer_message c key msg = after_unlock (offer_locked c key msg)

-- The new coalescer, whether the message is accepted, and whether it replaced an older one.
unfoldable pub offer : Coalescer → EphemeralKey → Option HubMessage → Coalescer × Bool × Bool
unfolding offer_message
offer c key none = (c, false, false)
offer c key (some msg) =
    if str_eq key.0 "" || str_eq key.1 "" then (c, false, false) else offer_message c key msg

-- The loop over the shards that are left: the messages so far, and their number.
pub drain_shards : List (Map EphemeralKey HubMessage) → List HubMessage → ℤ → List HubMessage × ℤ
drain_shards [] drained count = (drained, count)
drain_shards ([] ∷ shards) drained count = drain_shards shards drained count
drain_shards ((e ∷ slots) ∷ shards) drained count =
    let drained' = drained ++ Map.values (e ∷ slots) in
    drain_shards shards drained' (count +ℤ (pos (length drained') -ℤ count))

unfoldable pub drain : Coalescer → Coalescer × List HubMessage
unfolding drain_shards
drain c =
    let (drained, count) = drain_shards c.shards [] (pos 0) in
    let c' = record c { shards = map (λ _. []) c.shards } in
    (if ltb_ℤ (pos 0) count then record c' { size = int64 (c.size -ℤ count) } else c', drained)

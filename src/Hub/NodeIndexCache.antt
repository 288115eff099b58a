-- ===== src/Hub/NodeIndexCache.antt =====
-- hub/node_index_cache.go: the cache of the nodes where a user is, with a short life and a capacity. A call is
-- one step; the clock is an argument, and a call that reads it twice takes two.
pub mod Sweep
pub mod Bounds
pub mod RoundTrip
use go_wsc.Base.{
  ℕ, zero, suc, ◌+◌, ◌-◌, ◌*◌, ◌/◌, ◌%◌, ◌^◌, ◌≤◌, ◌<◌, String, ◌≡◌, refl, sym, ap, ap₂, ◌∙◌, ◌≢◌,
  ◌↔◌, ◌⊎◌, inl, inr, Bool, true, false, not, ◌&&◌, ◌||◌, Option, none, some, List, [], ◌∷◌, ◌++◌,
  map, ◌>>=◌, arith, eq_iff, ltb, leb, eqb, str_eq, if◌then◌else◌, ltb→lt, lt→ltb, leb→le, eqb_iff,
  Bool-cases, Option-cases, Eq, nat_eq, string_eq, pair_eq, ◌==◌, agrees_refl, length,
  length-append, length-set, length-replicate, get_or, get_or-replicate, get_or-set_self,
  get_or-set_ne, set, replicate, All, All-get_or, All-set, All-replicate, total-set, total,
  total-append, one_of, every, one_of-every,
}
use go_wsc.Base.Int.{
  ℤ, pos, negsuc, pos_part, neg_part, ◌+ℤ◌, ◌-ℤ◌, ◌*ℤ◌, ◌≤ℤ◌, ◌<ℤ◌, ltb_ℤ, leb_ℤ, eqb_ℤ, int64,
  int32, +ℤ_parts, -ℤ_parts, eq_of_parts, int_laws, +ℤ-pos, -ℤ-pos, int64-pos,
}
use go_wsc.Base.Map
use go_wsc.Base.Map.{Map}
use go_wsc.Routing.{Context, app_id_from_context, namespace_from_context}

-- An app, a namespace and a user.
abbrev pub NodeQueryKey : Type 0
NodeQueryKey = String × (String × String)

pub record NodeIndexEntry : Type 0 where
  pub nodes : List String
  pub expire_at : ℤ

pub record NodeIndexCache : Type 0 where
  pub entries : Map NodeQueryKey NodeIndexEntry
  pub size : ℤ
  pub ttl : ℤ
  pub max : ℤ

-- 300 milliseconds, in nanoseconds.
abbrev pub node_index_cache_default_ttl : ℤ
node_index_cache_default_ttl = pos 300000000

abbrev pub node_index_cache_max_entries : ℤ
node_index_cache_max_entries = pos 262144

unfoldable pub capacity : NodeIndexCache → ℤ
capacity c = if leb_ℤ c.max (pos 0) then node_index_cache_max_entries else c.max

-- An entry is taken out and counted off.
unfoldable pub drop_entry : NodeQueryKey → NodeIndexCache → NodeIndexCache
unfolding ◌-ℤ◌
drop_entry key c = record c { entries = Map.erase key c.entries; size = int64 (c.size -ℤ pos 1) }

-- The cache, and the nodes of an entry that has not expired.
unfoldable pub load : ℤ → NodeQueryKey → NodeIndexCache → NodeIndexCache × Option (List String)
unfolding Map.lookup drop_entry
load now key c = elim (Map.lookup key c.entries) [
  | none ↦ (c, none)
  | some e ↦ if ltb_ℤ e.expire_at now then (drop_entry key c, none) else (c, some e.nodes)
]

-- The entries that are left, and their count.
pub sweep {ℓ} : {K : Type ℓ} → ℤ → Map K NodeIndexEntry → ℤ → Map K NodeIndexEntry × ℤ
unfolding ◌-ℤ◌
sweep now [] size = ([], size)
sweep now ((key, e) ∷ m) size =
    if ltb_ℤ e.expire_at now
    then sweep now m (int64 (size -ℤ pos 1))
    else (let (left, count) = sweep now m size in ((key, e) ∷ left, count))

unfoldable pub evict_expired : ℤ → NodeIndexCache → NodeIndexCache × ℤ
unfolding sweep
evict_expired now c =
    let (left, count) = sweep now c.entries c.size in
    (record c { entries = left; size = count }, count)

unfoldable pub entry_of : ℤ → List String → NodeIndexCache → NodeIndexEntry
unfolding ◌+ℤ◌
entry_of now nodes c =
    let ttl = if leb_ℤ c.ttl (pos 0) then node_index_cache_default_ttl else c.ttl in
    record { nodes = nodes; expire_at = int64 (now +ℤ ttl) }

-- The new entry is taken back, unless the sweep took it.
unfoldable pub take_back : NodeQueryKey → NodeIndexCache → NodeIndexCache
unfolding Map.has drop_entry
take_back key c = if Map.has key c.entries then drop_entry key c else c

-- After a sweep, with the count that it left.
unfoldable pub settle_sweep : ℤ → NodeQueryKey → NodeIndexCache × ℤ → NodeIndexCache
unfolding take_back
settle_sweep bound key (c, count) = if ltb_ℤ bound count then take_back key c else c

-- After an entry is added: a sweep at the second time, when there are too many.
unfoldable pub limit : ℤ → NodeQueryKey → NodeIndexCache → NodeIndexCache
unfolding capacity evict_expired settle_sweep
limit now key c =
    if ltb_ℤ (capacity c) c.size then settle_sweep (capacity c) key (evict_expired now c) else c

unfoldable pub store : ℤ → ℤ → NodeQueryKey → List String → NodeIndexCache → NodeIndexCache
unfolding entry_of Map.insert Map.has limit ◌+ℤ◌
store now later key nodes c =
    let c' = record c { entries = Map.insert key (entry_of now nodes c) c.entries } in
    if Map.has key c.entries
    then c'
    else limit later key (record c' { size = int64 (c.size +ℤ pos 1) })

unfoldable pub node_index_cache_key : Context → String → NodeQueryKey
unfolding app_id_from_context namespace_from_context
node_index_cache_key ctx user_id = (app_id_from_context ctx, (namespace_from_context ctx, user_id))

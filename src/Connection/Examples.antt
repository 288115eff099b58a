-- ===== src/Connection/Examples.antt =====
-- The theorems on connection/ at concrete inputs.
pub mod Registry
mod SlowConsumers
mod ControlLanes
use go_wsc.Base.{String, ◌≡◌, refl, false, none, some, [], ◌∷◌, nat_eq, string_eq, pair_eq}
use go_wsc.Connection.Observers.{
  Observer, ObserverIndex, new_observer_index, group_index_key, add, remove, get_for_message,
}
use go_wsc.Connection.Observers.Search.{
  has_id, Distinct, has_open, candidates, get_for_message-has_id,
}
use go_wsc.Connection.Observers.Keeps.{everywhere, in_group, kept, kept-add, kept-remove}

abbrev auditor : Observer
auditor = record { id = "c1"; namespace = ""; group_id = "" }

abbrev watcher : Observer
watcher = record { id = "c2"; namespace = "shop"; group_id = "g1" }

abbrev index : ObserverIndex
index = add watcher (add auditor new_observer_index)

get_for_message-has_id_example :
    Distinct (get_for_message (λ c. false) "shop" ("g1" ∷ "g1" ∷ []) index)
    × ((id : String)
        → has_id id (get_for_message (λ c. false) "shop" ("g1" ∷ "g1" ∷ []) index)
          ≡ has_open (λ c. false) id (candidates "shop" ("g1" ∷ "g1" ∷ []) index))
get_for_message-has_id_example = get_for_message-has_id (λ c. false) "shop" ("g1" ∷ "g1" ∷ []) index

-- Two groups of different namespaces have the same key.
same_key : group_index_key "a:b" "c" ≡ group_index_key "a" "b:c"
unfolding group_index_key
same_key = refl

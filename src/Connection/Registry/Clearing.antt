-- ===== src/Connection/Registry/Clearing.antt =====
-- connection/sharded_registry.go: the cleared registry.
use go_wsc.Base.{◌^◌, ◌<◌, String, ◌≡◌, refl, ◌∙◌, true, false, nat_eq, string_eq, pair_eq, length}
use go_wsc.Base.Int.{pos, int64-pos}
use go_wsc.Base.Map
use go_wsc.Base.Map.{Map}
use go_wsc.Connection.Registry.{Registry, new_sharded_registry, clear}
use go_wsc.Connection.Registry.Sound.{IsSound}
use go_wsc.Connection.Registry.Runs.{new_sharded_registry-IsSound}
use go_wsc.Connection.Registry.Kinds.{
  get_observer_user_count, get_agent_user_count, has_observer, has_agent,
}

-- The cleared registry is sound if nobody observes and nobody serves.
pub clear-IsSound :
    (r : Registry) → r.observer_user_count ≡ pos 0 → r.agent_user_count ≡ pos 0 → IsSound (clear r)
unfolding clear new_sharded_registry Map.lookup
clear-IsSound r observers agents =
    let empty = new_sharded_registry-IsSound r.agent_enabled r.observer_enabled in
    record {
      nested = empty.nested;
      places = empty.places;
      owns = empty.owns;
      clients_held = refl;
      users_held = refl;
      sse_selected = empty.sse_selected;
      sse_held = refl;
      observers_selected = (empty.nested, λ u i. refl);
      observers_held = observers;
      agents_selected = (empty.nested, λ u i. refl);
      agents_held = agents;
      groups_filed = empty.groups_filed;
      namespaces_filed = empty.namespaces_filed;
      attrs_filed = empty.attrs_filed;
    }

-- After a sound registry is cleared, with observers and agents enabled and fewer than 2 to the 63rd
-- users of either, nobody observes and nobody serves, but the counts of the users who do are still
-- the numbers of those who did.
pub clear-counts :
    (r : Registry)
    → IsSound r
    → r.observer_enabled ≡ true
    → r.agent_enabled ≡ true
    → length r.observers < 2 ^ 63
    → length r.agents < 2 ^ 63
    → ((user : String) → (has_observer user (clear r) ≡ false) × (has_agent user (clear r) ≡ false))
      × (get_observer_user_count (clear r) ≡ pos (length r.observers))
      × (get_agent_user_count (clear r) ≡ pos (length r.agents))
unfolding clear has_observer has_agent get_observer_user_count get_agent_user_count
clear-counts r s observed served few_observers few_agents = (
  λ user. rw (observed, served) (refl, refl),
  rw observed (s.observers_held ∙ int64-pos (length r.observers) few_observers),
  rw served (s.agents_held ∙ int64-pos (length r.agents) few_agents),
)

-- ===== src/Connection/Registry/Kinds.antt =====
-- connection/sharded_registry.go: what is asked of the indexes of SSE clients, observers and agents, and
-- of the counters.
use go_wsc.Base.{
  ℕ, String, Bool, false, not, ◌&&◌, Option, none, List, [], eqb, if◌then◌else◌, nat_eq, string_eq,
  pair_eq, length,
}
use go_wsc.Base.Int.{ℤ, pos, ◌-ℤ◌, int64}
use go_wsc.Base.Map
use go_wsc.Base.Map.{Map}
use go_wsc.Base.Nested.{inner}
use go_wsc.Connection.Observers
use go_wsc.Connection.Observers.{Observer}
use go_wsc.Connection.Registry.{Client, Registry}

unfoldable pub get_sse_user_clients : String → Registry → Option (Map String Client)
unfolding Map.lookup
get_sse_user_clients user r = Map.lookup user r.sse

unfoldable pub has_sse_user : String → Registry → Bool
unfolding Map.has Map.lookup
has_sse_user user r = Map.has user r.sse && not (eqb (length (inner user r.sse)) 0)

unfoldable pub get_observer_user_clients : String → Registry → Option (Map String Client)
unfolding Map.lookup
get_observer_user_clients user r =
    if not r.observer_enabled then none else Map.lookup user r.observers

unfoldable pub get_observer_user_count : Registry → ℤ
get_observer_user_count r = if not r.observer_enabled then pos 0 else r.observer_user_count

unfoldable pub get_observer_device_count : Registry → ℕ
get_observer_device_count r = if not r.observer_enabled then 0 else Map.sum length r.observers

unfoldable pub has_observer : String → Registry → Bool
unfolding Map.has
has_observer user r = if not r.observer_enabled then false else Map.has user r.observers

unfoldable pub get_observers_for_message :
    (Observer → Bool) → String → List String → Registry → List Observer
unfolding Observers.get_for_message
get_observers_for_message closed namespace group_ids r =
    if not r.observer_enabled
    then []
    else Observers.get_for_message closed namespace group_ids r.observer_idx

unfoldable pub get_agent_user_clients : String → Registry → Option (Map String Client)
unfolding Map.lookup
get_agent_user_clients user r = if not r.agent_enabled then none else Map.lookup user r.agents

unfoldable pub get_agent_user_count : Registry → ℤ
get_agent_user_count r = if not r.agent_enabled then pos 0 else r.agent_user_count

unfoldable pub has_agent : String → Registry → Bool
unfolding Map.has Map.lookup
has_agent user r =
    if not r.agent_enabled
    then false
    else Map.has user r.agents && not (eqb (length (inner user r.agents)) 0)

unfoldable pub get_client_count : Registry → ℤ
get_client_count r = r.client_count

unfoldable pub get_user_count : Registry → ℤ
get_user_count r = r.user_count

unfoldable pub get_sse_client_count : Registry → ℤ
get_sse_client_count r = r.sse_count

unfoldable pub get_active_client_count : Registry → ℤ
unfolding ◌-ℤ◌
get_active_client_count r = int64 (r.client_count -ℤ r.sse_count)

-- ===== src/Connection/Examples/Registry.antt =====
-- The theorems on connection/sharded_registry.go at concrete inputs.
use go_wsc.Base.{
  String, ◌≡◌, refl, ◌≢◌, ◌↔◌, ◌⊎◌, true, false, none, some, List, [], ◌∷◌, arith, eq_iff,
  if◌then◌else◌, nat_eq, string_eq, pair_eq, length, one_of,
}
use go_wsc.Base.Int.{pos}
use go_wsc.Base.Map
use go_wsc.Base.Map.{Map}
use go_wsc.Base.Nested.{find}
use go_wsc.Base.Nested.Sums.{total_of}
use go_wsc.Connection.Registry.{
  Client, Registry, new_sharded_registry, register, add_client, remove_client, clear, is_sse,
  add_minus_one, group_keys, group_member_key,
}
use go_wsc.Connection.Registry.Sound.{IsSound}
use go_wsc.Connection.Registry.Runs.{
  Call, add, run, IsFitting, run-IsSound, new_sharded_registry-IsSound,
}
use go_wsc.Connection.Registry.Queries.{has_user, get_local_group_members}
use go_wsc.Connection.Registry.Answers.{has_user-matches, HasKey}
use go_wsc.Connection.Registry.Members.{get_local_group_members-joined}
use go_wsc.Connection.Registry.RoundTrip.{SameView, remove_client-register, sse_count-retyped}
use go_wsc.Connection.Registry.Clearing.{clear-counts}
use go_wsc.Connection.Registry.Kinds.{
  has_observer, has_agent, get_observer_user_count, get_agent_user_count,
}
use go_wsc.Routing.{normalize_app_id}

abbrev shop : String
shop = "shop"

abbrev alice : Client
alice = record {
  address = 1;
  id = "c1";
  user_id = "alice";
  app_id = "app";
  namespace = "shop";
  group_id = "";
  group_ids = "g1" ∷ "g2" ∷ [];
  user_type = "observer";
  role = "";
  client_type = "web";
  department = "";
  connection_type = "websocket";
}

abbrev bob : Client
bob = record alice { address = 2; id = "c2"; user_id = "bob"; user_type = "agent" }

-- Alice again, with the same id, over another kind of connection.
abbrev alice_sse : Client
alice_sse = record alice { address = 3; connection_type = "sse" }

abbrev start : Registry
start = new_sharded_registry true true

abbrev calls : List Call
calls = add (some alice) ∷ add none ∷ add (some bob) ∷ []

start-IsFitting : IsFitting calls start
unfolding register new_sharded_registry
start-IsFitting = (
  record { alike = λ old e. cc; unclaimed = λ user e. cc },
  (record { alike = λ old e. cc; unclaimed = λ user e. cc }, tt),
)

run-IsSound_example : IsSound (run calls start)
run-IsSound_example =
    run-IsSound calls start start-IsFitting (new_sharded_registry-IsSound true true)

abbrev full : Registry
full = run calls start

full-IsSound : IsSound full
full-IsSound = run-IsSound calls start start-IsFitting (new_sharded_registry-IsSound true true)

has_user-matches_example : (has_user "bob" "app" "shop" full ≡ true) ↔ (
    (id : String) × (c : Client) × (find "bob" id full.users ≡ some c)
    × (c.app_id ≡ "app")
    × ((shop ≡ "") ⊎ (c.namespace ≡ "shop")))
has_user-matches_example =
    has_user-matches full full-IsSound "bob" "app" "shop" (λ e. ground (arith, eq_iff "app" "", e))

get_local_group_members-joined_example :
    (one_of "alice" (get_local_group_members "app" ("g2" ∷ "g1" ∷ []) full) ≡ true) ↔ (
      (g : String) × (one_of g ("g2" ∷ "g1" ∷ []) ≡ true)
      × (g ≢ "")
      × HasKey group_keys full.users (group_member_key (normalize_app_id "app") g) "alice")
get_local_group_members-joined_example =
    get_local_group_members-joined full full-IsSound "app" ("g2" ∷ "g1" ∷ []) "alice"

remove_client-register_example :
    ((remove_client "c1" "alice" (register alice start)).1 ≡ some alice)
    × SameView (remove_client "c1" "alice" (register alice start)).0 start
unfolding new_sharded_registry Map.lookup
remove_client-register_example =
    remove_client-register alice start (new_sharded_registry-IsSound true true) refl refl

sse_count-retyped_example :
    ((remove_client "c1" "alice" (register alice_sse full)).0.sse_count
      ≡ add_minus_one full.sse_count)
    × (total_of
          (λ d. if is_sse d then 1 else 0)
          (remove_client "c1" "alice" (register alice_sse full)).0.users
        ≡ total_of (λ d. if is_sse d then 1 else 0) full.users)
unfolding new_sharded_registry run add_client Map.lookup
sse_count-retyped_example = sse_count-retyped alice_sse full alice full-IsSound refl refl refl

clear-counts_example :
    ((user : String)
      → (has_observer user (clear full) ≡ false) × (has_agent user (clear full) ≡ false))
    × (get_observer_user_count (clear full) ≡ pos (length full.observers))
    × (get_agent_user_count (clear full) ≡ pos (length full.agents))
unfolding new_sharded_registry run add_client Map.lookup
clear-counts_example = clear-counts full full-IsSound refl refl (omega arith) (omega arith)

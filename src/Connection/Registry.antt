-- ===== src/Connection/Registry.antt =====
-- connection/sharded_registry.go: the registry of the connections of a node, with its indexes and its
-- counters. A sharded map is a map. Of a client these are the fields that the registry reads, and its
-- address, since the registry keeps pointers. A module that is not enabled keeps no clients.
-- AddClient and RemoveClient lock the users, the owners and then each index; here each is one step, and
-- calls for the same id that overlap are left out.
pub mod Views
pub mod Joins
pub mod Leaves
pub mod Sound
pub mod Queries
pub mod Kinds
pub mod Answers
pub mod Members
pub mod Runs
pub mod RoundTrip
pub mod Clearing
pub mod Visits
use go_wsc.Base.{
  ℕ, String, Bool, true, false, not, ◌&&◌, ◌||◌, Option, none, some, List, [], ◌∷◌, ◌++◌, map, eqb,
  str_eq, if◌then◌else◌, nat_eq, string_eq, pair_eq, length,
}
use go_wsc.Base.Int.{ℤ, pos, negsuc, ◌+ℤ◌, int64}
use go_wsc.Base.Map
use go_wsc.Base.Map.{Map}
use go_wsc.Base.Nested.{Nested, inner, find, put, drop}
use go_wsc.Connection.Observers
use go_wsc.Connection.Observers.{Observer, ObserverIndex, new_observer_index}
use go_wsc.Connection.Refs.{RefIndex, acquire_all, release_all}
use go_wsc.Routing.{normalize_app_id, default_group_id}
use go_wsc.Models.Enums.UserType
use Prim.Native.String.{◌++◌ as ◌<>◌}

pub record Client : Type 0 where
  pub address : ℕ
  pub id : String
  pub user_id : String
  pub app_id : String
  pub namespace : String
  pub group_id : String
  pub group_ids : List String
  pub user_type : String
  pub role : String
  pub client_type : String
  pub department : String
  pub connection_type : String

unfoldable pub get_app_id : Client → String
unfolding normalize_app_id
get_app_id c = normalize_app_id c.app_id

unfoldable pub get_group_ids : Client → List String
get_group_ids c =
    if not (eqb (length c.group_ids) 0)
    then c.group_ids
    else if not (str_eq c.group_id "")
    then c.group_id ∷ []
    else default_group_id ∷ []

-- `groupMemberKey` and `nsIdxKey` are the same function.
unfoldable pub group_member_key : String → String → String
group_member_key app_id group_id = app_id <> (":" <> group_id)

unfoldable pub ns_idx_key : String → String → String
ns_idx_key app_id namespace = app_id <> (":" <> namespace)

unfoldable pub attr_idx_key : String → String → String → String
attr_idx_key app_id dim value = app_id <> (":" <> (dim <> (":" <> value)))

abbrev pub attr_dim_user_type : String
attr_dim_user_type = "ut"

abbrev pub attr_dim_role : String
attr_dim_role = "ro"

abbrev pub attr_dim_client_type : String
attr_dim_client_type = "ct"

abbrev pub attr_dim_department : String
attr_dim_department = "dp"

unfoldable pub client_attrs : Client → List (String × String)
client_attrs c =
    (attr_dim_user_type, c.user_type)
    ∷ (attr_dim_role, c.role)
    ∷ (attr_dim_client_type, c.client_type)
    ∷ (attr_dim_department, c.department)
    ∷ []

-- The keys of a client in the three reverse indexes.
unfoldable pub group_keys : Client → List String
unfolding get_app_id get_group_ids group_member_key
group_keys c = map (group_member_key (get_app_id c)) (get_group_ids c)

unfoldable pub namespace_keys : Client → List String
unfolding get_app_id ns_idx_key
namespace_keys c = ns_idx_key (get_app_id c) c.namespace ∷ []

-- A dimension without a value has no key.
pub keys_of_attrs : String → List (String × String) → List String
unfolding attr_idx_key
keys_of_attrs app_id [] = []
keys_of_attrs app_id (a ∷ attrs) =
    (if str_eq a.1 "" then [] else attr_idx_key app_id a.0 a.1 ∷ []) ++ keys_of_attrs app_id attrs

unfoldable pub attr_keys : Client → List String
unfolding get_app_id client_attrs keys_of_attrs
attr_keys c = keys_of_attrs (get_app_id c) (client_attrs c)

unfoldable pub is_sse : Client → Bool
is_sse c = str_eq c.connection_type "sse"

unfoldable pub is_observer : Client → Bool
is_observer c = str_eq c.user_type UserType.observer

unfoldable pub is_agent : Client → Bool
is_agent c = str_eq c.user_type UserType.agent || str_eq c.user_type UserType.bot

abbrev pub observer_of : Client → Observer
observer_of c = record { id = c.id; namespace = c.namespace; group_id = c.group_id }

pub record Registry : Type 0 where
  pub users : Nested Client
  pub owners : Map String String
  pub client_count : ℤ
  pub user_count : ℤ
  pub sse : Nested Client
  pub sse_count : ℤ
  pub observer_enabled : Bool
  pub observers : Nested Client
  pub observer_user_count : ℤ
  pub observer_idx : ObserverIndex
  pub agent_enabled : Bool
  pub agents : Nested Client
  pub agent_user_count : ℤ
  pub group_members : RefIndex
  pub namespaces : RefIndex
  pub attrs : RefIndex

unfoldable pub new_sharded_registry : Bool → Bool → Registry
unfolding new_observer_index
new_sharded_registry agent_enabled observer_enabled = record {
  users = [];
  owners = [];
  client_count = pos 0;
  user_count = pos 0;
  sse = [];
  sse_count = pos 0;
  observer_enabled = observer_enabled;
  observers = [];
  observer_user_count = pos 0;
  observer_idx = new_observer_index;
  agent_enabled = agent_enabled;
  agents = [];
  agent_user_count = pos 0;
  group_members = [];
  namespaces = [];
  attrs = [];
}

-- The atomic counters: `Add(1)` and `Add(-1)`.
unfoldable pub add_one : ℤ → ℤ
unfolding ◌+ℤ◌
add_one n = int64 (n +ℤ pos 1)

unfoldable pub add_minus_one : ℤ → ℤ
unfolding ◌+ℤ◌
add_minus_one n = int64 (n +ℤ negsuc 0)

abbrev pub keep : Client → Nested Client → Nested Client
keep c m = put c.user_id c.id c m

-- Whether a user's last connection leaves with this one.
unfoldable pub vacates : String → String → Nested Client → Bool
unfolding Map.has Map.erase
vacates user id m = Map.has user m && eqb (length (Map.erase id (inner user m))) 0

abbrev pub is_present : Option Client → Bool
is_present none = false
is_present (some c) = true

-- `AddClient` for a client that is not nil.
unfoldable pub register : Client → Registry → Registry
unfolding put Map.has Map.insert is_sse is_observer is_agent add_one Observers.add acquire_all
    group_keys namespace_keys attr_keys
register c r =
    let is_new = not (is_present (find c.user_id c.id r.users)) in
    let observes = is_observer c && r.observer_enabled in
    let serves = is_agent c && r.agent_enabled in
    record r {
      users = keep c r.users;
      user_count = if Map.has c.user_id r.users then r.user_count else add_one r.user_count;
      owners = Map.insert c.id c.user_id r.owners;
      sse = if is_sse c then keep c r.sse else r.sse;
      sse_count = if is_sse c && is_new then add_one r.sse_count else r.sse_count;
      observers = if observes then keep c r.observers else r.observers;
      observer_user_count =
          if observes && not (Map.has c.user_id r.observers)
          then add_one r.observer_user_count
          else r.observer_user_count;
      observer_idx =
          if observes then Observers.add (observer_of c) r.observer_idx else r.observer_idx;
      agents = if serves then keep c r.agents else r.agents;
      agent_user_count =
          if serves && not (Map.has c.user_id r.agents)
          then add_one r.agent_user_count
          else r.agent_user_count;
      client_count = if is_new then add_one r.client_count else r.client_count;
      group_members =
          if is_new then acquire_all (group_keys c) c.user_id r.group_members else r.group_members;
      namespaces =
          if is_new then acquire_all (namespace_keys c) c.user_id r.namespaces else r.namespaces;
      attrs = if is_new then acquire_all (attr_keys c) c.user_id r.attrs else r.attrs;
    }

unfoldable pub add_client : Option Client → Registry → Registry
unfolding register
add_client none r = r
add_client (some c) r = register c r

-- What `RemoveClient` does once it has found the client.
unfoldable pub unregister : String → String → Client → Registry → Registry
unfolding drop Map.erase vacates is_sse is_observer is_agent add_minus_one Observers.remove
    release_all group_keys namespace_keys attr_keys
unregister id user c r =
    let observes = is_observer c && r.observer_enabled in
    let serves = is_agent c && r.agent_enabled in
    record r {
      users = drop user id r.users;
      user_count = if vacates user id r.users then add_minus_one r.user_count else r.user_count;
      sse = if is_sse c then drop c.user_id c.id r.sse else r.sse;
      sse_count = if is_sse c then add_minus_one r.sse_count else r.sse_count;
      observers = if observes then drop c.user_id c.id r.observers else r.observers;
      observer_user_count =
          if observes && vacates c.user_id c.id r.observers
          then add_minus_one r.observer_user_count
          else r.observer_user_count;
      observer_idx =
          if observes then Observers.remove (observer_of c) r.observer_idx else r.observer_idx;
      agents = if serves then drop c.user_id c.id r.agents else r.agents;
      agent_user_count =
          if serves && vacates c.user_id c.id r.agents
          then add_minus_one r.agent_user_count
          else r.agent_user_count;
      owners = Map.erase id r.owners;
      client_count = add_minus_one r.client_count;
      group_members = release_all (group_keys c) c.user_id r.group_members;
      namespaces = release_all (namespace_keys c) c.user_id r.namespaces;
      attrs = release_all (attr_keys c) c.user_id r.attrs;
    }

-- The new registry, and the client that was removed.
remove_found : String → String → Registry → Option Client → Registry × Option Client
unfolding unregister
remove_found id user r none = (r, none)
remove_found id user r (some c) = (unregister id user c r, some c)

unfoldable pub remove_client : String → String → Registry → Registry × Option Client
unfolding remove_found Map.lookup
remove_client id user r = remove_found id user r (find user id r.users)

-- The counts of the users that observe and serve stay as they are.
unfoldable pub clear : Registry → Registry
unfolding new_observer_index
clear r = record r {
  users = [];
  sse = [];
  group_members = [];
  namespaces = [];
  attrs = [];
  observers = [];
  observer_idx = if r.observer_enabled then new_observer_index else r.observer_idx;
  agents = [];
  owners = [];
  client_count = pos 0;
  user_count = pos 0;
  sse_count = pos 0;
}

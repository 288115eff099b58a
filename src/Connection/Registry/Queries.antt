-- ===== src/Connection/Registry/Queries.antt =====
-- connection/sharded_registry.go: what is asked of the registry. A loop with a callback runs the callback
-- over a state of the caller's, until it returns false. A loop
-- in parallel, which another package runs, makes its calls in an order that is a parameter, `arrange`.
use go_wsc.Base.{
  ℕ, String, Bool, true, false, not, ◌&&◌, Option, none, some, List, [], ◌∷◌, ◌++◌, ◌>>=◌, str_eq,
  if◌then◌else◌, nat_eq, string_eq, pair_eq, length,
}
use go_wsc.Base.Int.{ℤ, pos, ltb_ℤ}
use go_wsc.Base.Map
use go_wsc.Base.Map.{Map}
use go_wsc.Base.Entries.{any}
use go_wsc.Base.Nested.{Nested, inner, find}
use go_wsc.Connection.Refs.{RefIndex}
use go_wsc.Connection.Registry.{
  Client, Registry, group_member_key, ns_idx_key, attr_idx_key, attr_dim_user_type, attr_dim_role,
  attr_dim_client_type, attr_dim_department,
}
use go_wsc.Routing.{normalize_app_id}

unfoldable pub get_client : String → Registry → Option Client
unfolding Map.lookup
get_client id r = do user ← Map.lookup id r.owners; find user id r.users

unfoldable pub get_user_clients : String → Registry → Option (Map String Client)
unfolding Map.lookup
get_user_clients user r = Map.lookup user r.users

unfoldable pub get_user_client_count : String → Registry → ℕ
unfolding Map.lookup
get_user_client_count user r = length (inner user r.users)

unfoldable pub has_user_any_scope : String → Registry → Bool
unfolding Map.has
has_user_any_scope user r = Map.has user r.users

-- The groups of the message are not looked at.
unfoldable pub client_matches_envelope : Client → String → String → List String → Bool
client_matches_envelope c app_id namespace group_ids =
    if not (str_eq c.app_id app_id)
    then false
    else if not (str_eq namespace "") && not (str_eq c.namespace namespace)
    then false
    else true

unfoldable pub has_user : String → String → String → Registry → Bool
unfolding has_user_any_scope client_matches_envelope Map.lookup
has_user user app_id namespace r =
    if str_eq app_id ""
    then has_user_any_scope user r
    else any (λ c. client_matches_envelope c app_id namespace []) (inner user r.users)

unfoldable pub has_user_exact_envelope : String → String → String → Registry → Bool
unfolding has_user_any_scope Map.lookup
has_user_exact_envelope user app_id namespace r =
    if str_eq app_id ""
    then has_user_any_scope user r
    else any (λ c. str_eq c.app_id app_id && str_eq c.namespace namespace) (inner user r.users)

-- The users of the keys, each once.
unfoldable pub collect_users : List String → Map {0, 0} String Unit → Map {0, 0} String Unit
unfolding Map.insert
collect_users [] seen = seen
collect_users (user ∷ users) seen = collect_users users (Map.insert user tt seen)

unfoldable pub collect_members :
    RefIndex → String → List String → Map {0, 0} String Unit → Map {0, 0} String Unit
unfolding collect_users group_member_key
collect_members idx app_id [] seen = seen
collect_members idx app_id (g ∷ gs) seen =
    let here = collect_users (Map.keys (inner (group_member_key app_id g) idx)) seen in
    collect_members idx app_id gs (if str_eq g "" then seen else here)

unfoldable pub get_local_group_members : String → List String → Registry → List String
unfolding collect_members normalize_app_id
get_local_group_members app_id group_ids r =
    Map.keys (collect_members r.group_members (normalize_app_id app_id) group_ids [])

-- No answer for an empty value, which has no key.
unfoldable pub get_local_attr_users : String → String → String → Registry → Option (List String)
unfolding attr_idx_key normalize_app_id Map.lookup
get_local_attr_users app_id dim value r =
    if str_eq value ""
    then none
    else some (Map.keys (inner (attr_idx_key (normalize_app_id app_id) dim value) r.attrs))

unfoldable pub get_local_users_by_user_type : String → String → Registry → Option (List String)
unfolding get_local_attr_users
get_local_users_by_user_type app_id value = get_local_attr_users app_id attr_dim_user_type value

unfoldable pub get_local_users_by_role : String → String → Registry → Option (List String)
unfolding get_local_attr_users
get_local_users_by_role app_id value = get_local_attr_users app_id attr_dim_role value

unfoldable pub get_local_users_by_client_type : String → String → Registry → Option (List String)
unfolding get_local_attr_users
get_local_users_by_client_type app_id value = get_local_attr_users app_id attr_dim_client_type value

unfoldable pub get_local_users_by_department : String → String → Registry → Option (List String)
unfolding get_local_attr_users
get_local_users_by_department app_id value = get_local_attr_users app_id attr_dim_department value

unfoldable pub get_local_namespace_users : String → String → Registry → List String
unfolding ns_idx_key normalize_app_id Map.lookup
get_local_namespace_users app_id namespace r =
    if str_eq namespace ""
    then []
    else Map.keys (inner (ns_idx_key (normalize_app_id app_id) namespace) r.namespaces)

-- The clients of some users, in the order of a `range`.
unfoldable pub entries_of : Nested Client → List (String × Client)
entries_of [] = []
entries_of ((user, clients) ∷ m) = clients ++ entries_of m

unfoldable pub get_all_clients : Registry → List Client
unfolding entries_of
get_all_clients r = Map.values (entries_of r.users)

unfoldable pub get_online_user_ids : Registry → List String
get_online_user_ids r = Map.keys r.users

module _ {S : Type 0} where
  -- The rest of a loop after a callback, which returns false to end it.
  unfoldable pub go_on : (S → S × Bool) → S × Bool → S × Bool
  go_on rest (s, true) = rest s
  go_on rest (s, false) = (s, false)

  unfoldable pub visit : (S → String → Client → S × Bool) → List (String × Client) → S → S × Bool
  unfolding go_on
  visit fn [] s = (s, true)
  visit fn ((id, c) ∷ clients) s = go_on (visit fn clients) (fn s id c)

  -- A client that does not match the route of a message is passed over.
  unfoldable pub passing_over :
      String
      → String
      → List String
      → (S → String → Client → S × Bool)
      → S
      → String
      → Client
      → S × Bool
  passing_over app_id namespace group_ids fn s id c =
      if not (client_matches_envelope c app_id namespace group_ids) then (s, true) else fn s id c

  unfoldable pub for_each_user_client : String → (S → String → Client → S × Bool) → Registry → S → S
  unfolding visit Map.lookup
  for_each_user_client user fn r s = (visit fn (inner user r.users) s).0

  unfoldable pub for_each_user_client_filtered :
      String → String → String → List String → (S → String → Client → S × Bool) → Registry → S → S
  unfolding for_each_user_client passing_over
  for_each_user_client_filtered user app_id namespace group_ids fn r s =
      if str_eq app_id ""
      then for_each_user_client user fn r s
      else for_each_user_client user (passing_over app_id namespace group_ids fn) r s

  unfoldable pub for_each_client : (S → String → Client → S × Bool) → Registry → S → S
  unfolding visit entries_of
  for_each_client fn r s = (visit fn (entries_of r.users) s).0

  unfoldable pub for_each_client_filtered :
      String → String → List String → (S → String → Client → S × Bool) → Registry → S → S
  unfolding for_each_client passing_over
  for_each_client_filtered app_id namespace group_ids fn r s =
      for_each_client (passing_over app_id namespace group_ids fn) r s

abbrev pub parallel_threshold : ℤ
parallel_threshold = pos 256

unfoldable pub parallel_eligible : Registry → Bool
parallel_eligible r = ltb_ℤ parallel_threshold r.user_count

module _ {S : Type 0} where
  -- The callback of a loop in parallel does not stop it.
  unfoldable pub visit_all : (S → String → Client → S) → List (String × Client) → S → S
  visit_all fn [] s = s
  visit_all fn ((id, c) ∷ clients) s = visit_all fn clients (fn s id c)

  -- `arrange` is the order in which RangeParallel reaches the clients.
  module _ (arrange : List (String × Client) → List (String × Client)) where
    unfoldable pub for_each_client_filtered_parallel :
        String → String → List String → (S → String → Client → S) → Registry → S → S
    unfolding parallel_eligible for_each_client_filtered visit_all entries_of
    for_each_client_filtered_parallel app_id namespace group_ids fn r s =
        if not (parallel_eligible r)
        then for_each_client_filtered app_id namespace group_ids (λ t id c. (fn t id c, true)) r s
        else visit_all
            (λ t id c.
              if client_matches_envelope c app_id namespace group_ids then fn t id c else t)
            (arrange (entries_of r.users)) s

    unfoldable pub for_each_client_parallel : (S → String → Client → S) → Registry → S → S
    unfolding parallel_eligible for_each_client visit_all entries_of
    for_each_client_parallel fn r s =
        if not (parallel_eligible r)
        then for_each_client (λ t id c. (fn t id c, true)) r s
        else visit_all fn (arrange (entries_of r.users)) s

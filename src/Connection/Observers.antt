-- ===== src/Connection/Observers.antt =====
-- connection/sharded_registry.go: the index of the observers, by what they observe. Of a client these are
-- the fields that the index reads; whether it is closed may change while it is in the index, so that is
-- an argument of the search.
pub mod Search
pub mod Keeps
use go_wsc.Base.{
  String, Bool, not, Option, none, some, List, [], ◌∷◌, ◌++◌, eqb, str_eq, if◌then◌else◌, nat_eq,
  string_eq, pair_eq, length,
}
use go_wsc.Base.Map
use go_wsc.Base.Map.{Map}
use go_wsc.Base.Nested.{Nested, inner, put, drop}
use Prim.Native.String.{◌++◌ as ◌<>◌}

pub record Observer : Type 0 where
  pub id : String
  pub namespace : String
  pub group_id : String

pub record ObserverIndex : Type 0 where
  pub global : Map String Observer
  pub by_namespace : Nested Observer
  pub by_group : Nested Observer

unfoldable pub new_observer_index : ObserverIndex
new_observer_index = record { global = []; by_namespace = []; by_group = [] }

unfoldable pub group_index_key : String → String → String
group_index_key namespace group_id = namespace <> (":" <> group_id)

unfoldable pub add : Observer → ObserverIndex → ObserverIndex
unfolding put
add client idx =
    if str_eq client.namespace ""
    then record idx { global = Map.insert client.id client idx.global }
    else if not (str_eq client.group_id "")
    then record idx {
      by_group =
          put (group_index_key client.namespace client.group_id) client.id client idx.by_group;
    }
    else record idx { by_namespace = put client.namespace client.id client idx.by_namespace }

unfoldable pub remove : Observer → ObserverIndex → ObserverIndex
unfolding drop
remove client idx =
    if str_eq client.namespace ""
    then record idx { global = Map.erase client.id idx.global }
    else if not (str_eq client.group_id "")
    then record idx {
      by_group = drop (group_index_key client.namespace client.group_id) client.id idx.by_group;
    }
    else record idx { by_namespace = drop client.namespace client.id idx.by_namespace }

-- The ids that were seen and the clients found so far.
abbrev pub Found : Type 0
Found = Map {0, 0} String Unit × List Observer

module _ (closed : Observer → Bool) where
  unfoldable pub find_one : Observer → Found → Found
  find_one c (seen, result) =
      if closed c
      then (seen, result)
      else if Map.has c.id seen
      then (seen, result)
      else (Map.insert c.id tt seen, result ++ c ∷ [])

  pub find_all : List Observer → Found → Found
  find_all [] found = found
  find_all (c ∷ cs) found = find_all cs (find_one c found)

  pub find_groups : ObserverIndex → String → List String → Found → Found
  unfolding group_index_key
  find_groups idx namespace [] found = found
  find_groups idx namespace (g ∷ gs) found =
      let clients = Map.values (inner (group_index_key namespace g) idx.by_group) in
      let here = find_all clients found in
      find_groups idx namespace gs (if str_eq g "" then found else here)

  unfoldable pub get_for_message : String → List String → ObserverIndex → List Observer
  unfolding find_all find_groups
  get_for_message namespace group_ids idx =
      let everywhere = find_all (Map.values idx.global) ([], []) in
      let there = find_all (Map.values (inner namespace idx.by_namespace)) everywhere in
      (find_groups idx namespace group_ids there).1

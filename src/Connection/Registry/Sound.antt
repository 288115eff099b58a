-- ===== src/Connection/Registry/Sound.antt =====
-- connection/sharded_registry.go: the registry is sound, that is, its counters and indexes follow the
-- clients that are registered, whatever calls are made.
use go_wsc.Base.{
  String, ◌≡◌, refl, ap, Bool, true, false, not, ◌&&◌, some, str_eq, if◌then◌else◌, nat_eq,
  string_eq, pair_eq, length,
}
use go_wsc.Base.Map
use go_wsc.Base.Map.{Map}
use mathlib.Core.Path.{subst}
use go_wsc.Base.Nested.{IsNested, find, put, put-IsNested, drop-IsNested}
use go_wsc.Base.Nested.Sums.{total_of}
use go_wsc.Connection.Registry.{
  Client, Registry, register, unregister, is_sse, is_observer, is_agent, group_keys, namespace_keys,
  attr_keys, add_one,
}
use go_wsc.Connection.Registry.Views.{Holds, Selects, Files, Owns, Places}
use go_wsc.Connection.Registry.Joins.{
  keep-clients_held, keep-kind_held, keep-Selects, keep-Files, keep-Places, keep-Owns, keep_counted,
}
use go_wsc.Connection.Registry.Leaves.{
  drop-clients_held, drop-kind_held, drop-Selects, drop-Files, drop-Places, drop-Owns, drop_counted,
}

abbrev pub observes : Registry → Client → Bool
observes r c = is_observer c && r.observer_enabled

abbrev pub serves : Registry → Client → Bool
serves r c = is_agent c && r.agent_enabled

pub record IsSound (r : Registry) : Type 0 where
  pub nested : IsNested r.users
  pub places : Places r.users
  pub owns : Owns r.users r.owners
  pub clients_held : Holds r.client_count (total_of (λ _. 1) r.users)
  pub users_held : Holds r.user_count (length r.users)
  pub sse_selected : Selects is_sse r.users r.sse
  pub sse_held : Holds r.sse_count (total_of (λ c. if is_sse c then 1 else 0) r.users)
  pub observers_selected : Selects (observes r) r.users r.observers
  pub observers_held : Holds r.observer_user_count (length r.observers)
  pub agents_selected : Selects (serves r) r.users r.agents
  pub agents_held : Holds r.agent_user_count (length r.agents)
  pub groups_filed : Files group_keys r.users r.group_members
  pub namespaces_filed : Files namespace_keys r.users r.namespaces
  pub attrs_filed : Files attr_keys r.users r.attrs

-- What does not change while a client is registered, two connections of one id included.
pub record Alike (a b : Client) : Type 0 where
  pub app : a.app_id ≡ b.app_id
  pub namespace : a.namespace ≡ b.namespace
  pub group : a.group_id ≡ b.group_id
  pub groups : a.group_ids ≡ b.group_ids
  pub user_type : a.user_type ≡ b.user_type
  pub role : a.role ≡ b.role
  pub client_type : a.client_type ≡ b.client_type
  pub department : a.department ≡ b.department
  pub connection_type : a.connection_type ≡ b.connection_type

-- A client may be registered: its id is not one of another user, and a client that it replaces is alike.
pub record Fits (c : Client) (r : Registry) : Type 0 where
  pub alike : (old : Client) → find c.user_id c.id r.users ≡ some old → Alike old c
  pub unclaimed : (user : String) → Map.lookup c.id r.owners ≡ some user → user ≡ c.user_id

Alike-is_sse : (a b : Client) → Alike a b → is_sse a ≡ is_sse b
unfolding is_sse
Alike-is_sse a b h = ap (λ t. str_eq t "sse") h.connection_type

Alike-observes : (r : Registry) (a b : Client) → Alike a b → observes r a ≡ observes r b
unfolding is_observer
Alike-observes r a b h = cc (h.user_type)

Alike-serves : (r : Registry) (a b : Client) → Alike a b → serves r a ≡ serves r b
unfolding is_agent
Alike-serves r a b h = cc (h.user_type)

Alike-group_keys : (a b : Client) → Alike a b → group_keys a ≡ group_keys b
unfolding group_keys
Alike-group_keys a b h = cc (h.app, h.group, h.groups)

Alike-namespace_keys : (a b : Client) → Alike a b → namespace_keys a ≡ namespace_keys b
unfolding namespace_keys
Alike-namespace_keys a b h = cc (h.app, h.namespace)

Alike-attr_keys : (a b : Client) → Alike a b → attr_keys a ≡ attr_keys b
unfolding attr_keys
Alike-attr_keys a b h = cc (h.app, h.user_type, h.role, h.client_type, h.department)

flipped {ℓ} : {A : Type ℓ} (b : Bool) (x y : A) → (if not b then x else y) ≡ (if b then y else x)
flipped true x y = refl
flipped false x y = refl

pub register-IsSound : (c : Client) (r : Registry) → Fits c r → IsSound r → IsSound (register c r)
unfolding register
register-IsSound c r f s = record {
  nested = put-IsNested c.user_id c.id c r.users s.nested;
  places = keep-Places c r.users s.places;
  owns = keep-Owns c r.users r.owners f.unclaimed s.owns;
  clients_held = keep-clients_held c r.users r.client_count s.clients_held;
  users_held =
      subst (λ n. Holds n (length (put c.user_id c.id c r.users)))
        (flipped (Map.has c.user_id r.users) (add_one r.user_count) r.user_count)
        (keep_counted true c r.users r.user_count s.users_held);
  sse_selected =
      keep-Selects c r.users is_sse r.sse (λ old e. Alike-is_sse old c (f.alike old e))
        s.sse_selected;
  sse_held =
      keep-kind_held c r.users is_sse r.sse_count (λ old e. Alike-is_sse old c (f.alike old e))
        s.sse_held;
  observers_selected =
      keep-Selects c r.users (observes r) r.observers
        (λ old e. Alike-observes r old c (f.alike old e)) s.observers_selected;
  observers_held = keep_counted (observes r c) c r.observers r.observer_user_count s.observers_held;
  agents_selected =
      keep-Selects c r.users (serves r) r.agents (λ old e. Alike-serves r old c (f.alike old e))
        s.agents_selected;
  agents_held = keep_counted (serves r c) c r.agents r.agent_user_count s.agents_held;
  groups_filed =
      keep-Files c r.users group_keys r.group_members
        (λ old e. Alike-group_keys old c (f.alike old e)) s.groups_filed;
  namespaces_filed =
      keep-Files c r.users namespace_keys r.namespaces
        (λ old e. Alike-namespace_keys old c (f.alike old e)) s.namespaces_filed;
  attrs_filed =
      keep-Files c r.users attr_keys r.attrs (λ old e. Alike-attr_keys old c (f.alike old e))
        s.attrs_filed;
}

pub unregister-IsSound :
    (c : Client) (r : Registry)
    → find c.user_id c.id r.users ≡ some c
    → IsSound r
    → IsSound (unregister c.id c.user_id c r)
unfolding unregister
unregister-IsSound c r e s = record {
  nested = drop-IsNested c.user_id c.id r.users s.nested;
  places = drop-Places c.user_id c.id c r.users e s.places;
  owns = drop-Owns c.user_id c.id c r.users e r.owners s.owns;
  clients_held =
      drop-clients_held c.user_id c.id c r.users e r.client_count s.nested s.clients_held;
  users_held = drop_counted true c.user_id c.id r.users r.user_count s.nested s.users_held;
  sse_selected = drop-Selects c.user_id c.id c r.users e is_sse r.sse s.sse_selected;
  sse_held = drop-kind_held c.user_id c.id c r.users e is_sse r.sse_count s.nested s.sse_held;
  observers_selected =
      drop-Selects c.user_id c.id c r.users e (observes r) r.observers s.observers_selected;
  observers_held =
      drop_counted (observes r c) c.user_id c.id r.observers r.observer_user_count
        s.observers_selected.0 s.observers_held;
  agents_selected = drop-Selects c.user_id c.id c r.users e (serves r) r.agents s.agents_selected;
  agents_held =
      drop_counted (serves r c) c.user_id c.id r.agents r.agent_user_count s.agents_selected.0
        s.agents_held;
  groups_filed =
      drop-Files c.user_id c.id c r.users e group_keys r.group_members s.nested s.groups_filed;
  namespaces_filed =
      drop-Files c.user_id c.id c r.users e namespace_keys r.namespaces s.nested s.namespaces_filed;
  attrs_filed = drop-Files c.user_id c.id c r.users e attr_keys r.attrs s.nested s.attrs_filed;
}

-- ===== src/Connection/Observers/Keeps.antt =====
-- connection/sharded_registry.go: what the index keeps after a client is added or removed.
use go_wsc.Base.{
  String, ◌≡◌, refl, inl, inr, Bool, true, false, not, ◌&&◌, Option, none, some, str_eq,
  if◌then◌else◌, Bool-cases, nat_eq, string_eq, pair_eq,
}
use go_wsc.Connection.Observers.{remove}
use go_wsc.Base.Map
use go_wsc.Base.Map.{Map}
use go_wsc.Base.Nested.{find, put, drop, find-put, find-drop}
use go_wsc.Connection.Observers.{Observer, ObserverIndex, group_index_key, add}

-- Where a client belongs: everywhere, in a group, or in a namespace.
pub data Scope : Type 0 where
  everywhere : Scope
  in_group in_namespace : String → Scope

abbrev pub scope_of : Observer → Scope
scope_of c =
    if str_eq c.namespace ""
    then everywhere
    else if not (str_eq c.group_id "")
    then in_group (group_index_key c.namespace c.group_id)
    else in_namespace c.namespace

abbrev pub same_scope : Scope → Scope → Bool
same_scope everywhere everywhere = true
same_scope everywhere (in_group k) = false
same_scope everywhere (in_namespace k) = false
same_scope (in_group j) everywhere = false
same_scope (in_group j) (in_group k) = str_eq j k
same_scope (in_group j) (in_namespace k) = false
same_scope (in_namespace j) everywhere = false
same_scope (in_namespace j) (in_group k) = false
same_scope (in_namespace j) (in_namespace k) = str_eq j k

-- The client of an id that the index keeps in a scope.
abbrev pub kept : Scope → String → ObserverIndex → Option Observer
kept everywhere id idx = Map.lookup id idx.global
kept (in_group k) id idx = find k id idx.by_group
kept (in_namespace k) id idx = find k id idx.by_namespace

-- After a client is added, its scope keeps it under its id, in place of what was there; all else is
-- kept as before.
pub kept-add :
    (c : Observer) (s : Scope) (id : String) (idx : ObserverIndex)
    → kept s id (add c idx)
      ≡ (if same_scope (scope_of c) s && str_eq c.id id then some c else kept s id idx)
unfolding add
kept-add c s id idx = elim (Bool-cases (str_eq c.namespace "")) [
  | inl global ↦ rw global (at_global s)
  | inr named ↦ rw named (elim (Bool-cases (str_eq c.group_id "")) [
    | inl all ↦ rw all (at_namespace s)
    | inr group ↦ rw group (at_group s)
  ])
]
  where
    at_global :
        (s : Scope)
        → kept s id (record idx { global = Map.insert c.id c idx.global })
          ≡ (if same_scope everywhere s && str_eq c.id id then some c else kept s id idx)
    at_global everywhere = Map.lookup-insert c.id id c idx.global
    at_global (in_group k) = refl
    at_global (in_namespace k) = refl

    at_namespace :
        (s : Scope)
        → kept s id (record idx { by_namespace = put c.namespace c.id c idx.by_namespace }) ≡ (
            if same_scope (in_namespace c.namespace) s && str_eq c.id id
            then some c
            else kept s id idx)
    at_namespace everywhere = refl
    at_namespace (in_group k) = refl
    at_namespace (in_namespace k) = find-put c.namespace k c.id id c idx.by_namespace

    at_group :
        (s : Scope)
        → kept s id (record idx {
          by_group = put (group_index_key c.namespace c.group_id) c.id c idx.by_group;
        })
          ≡ (if same_scope (in_group (group_index_key c.namespace c.group_id)) s && str_eq c.id id
              then some c
              else kept s id idx)
    at_group everywhere = refl
    at_group (in_group k) =
        find-put (group_index_key c.namespace c.group_id) k c.id id c idx.by_group
    at_group (in_namespace k) = refl

-- After a client is removed, its scope keeps nothing under its id; all else is kept as before.
pub kept-remove :
    (c : Observer) (s : Scope) (id : String) (idx : ObserverIndex)
    → kept s id (remove c idx)
      ≡ (if same_scope (scope_of c) s && str_eq c.id id then none else kept s id idx)
unfolding remove
kept-remove c s id idx = elim (Bool-cases (str_eq c.namespace "")) [
  | inl global ↦ rw global (at_global s)
  | inr named ↦ rw named (elim (Bool-cases (str_eq c.group_id "")) [
    | inl all ↦ rw all (at_namespace s)
    | inr group ↦ rw group (at_group s)
  ])
]
  where
    at_global :
        (s : Scope)
        → kept s id (record idx { global = Map.erase c.id idx.global })
          ≡ (if same_scope everywhere s && str_eq c.id id then none else kept s id idx)
    at_global everywhere = Map.lookup-erase c.id id idx.global
    at_global (in_group k) = refl
    at_global (in_namespace k) = refl

    at_namespace :
        (s : Scope)
        → kept s id (record idx { by_namespace = drop c.namespace c.id idx.by_namespace }) ≡ (
            if same_scope (in_namespace c.namespace) s && str_eq c.id id
            then none
            else kept s id idx)
    at_namespace everywhere = refl
    at_namespace (in_group k) = refl
    at_namespace (in_namespace k) = find-drop c.namespace k c.id id idx.by_namespace

    at_group :
        (s : Scope)
        → kept s id (record idx {
          by_group = drop (group_index_key c.namespace c.group_id) c.id idx.by_group;
        })
          ≡ (if same_scope (in_group (group_index_key c.namespace c.group_id)) s && str_eq c.id id
              then none
              else kept s id idx)
    at_group everywhere = refl
    at_group (in_group k) =
        find-drop (group_index_key c.namespace c.group_id) k c.id id idx.by_group
    at_group (in_namespace k) = refl

-- ===== src/Connection/Registry/Members.antt =====
-- connection/sharded_registry.go: the users that a sound registry finds by a group, a namespace or an attribute.
use go_wsc.Base.{
  String, ◌≡◌, refl, sym, ◌∙◌, ◌≢◌, ◌↔◌, inl, inr, Bool, true, false, not, ◌&&◌, ◌||◌, some, List,
  [], ◌∷◌, arith, eq_iff, str_eq, Bool-cases, nat_eq, string_eq, pair_eq, one_of,
}
use go_wsc.Base.Map
use go_wsc.Base.Map.{Map}
use go_wsc.Base.Map.{weight}
use mathlib.Core.Path.{subst}
use go_wsc.Base.Entries.{one_of-keys}
use go_wsc.Base.Nested.{inner}
use go_wsc.Connection.Refs.{RefIndex}
use go_wsc.Connection.Registry.{
  Registry, group_member_key, group_keys, attr_idx_key, attr_keys, ns_idx_key, namespace_keys,
}
use go_wsc.Connection.Registry.Sound.{IsSound}
use go_wsc.Connection.Registry.Queries.{
  collect_users, collect_members, get_local_group_members, get_local_attr_users,
  get_local_namespace_users,
}
use go_wsc.Routing.{normalize_app_id}
use go_wsc.Connection.Registry.Answers.{HasKey, Files-member}

has-collect_users :
    (user : String) (users : List String) (seen : Map {0, 0} String Unit)
    → Map.has user (collect_users users seen) ≡ (one_of user users || Map.has user seen)
unfolding collect_users
has-collect_users user [] seen = refl
has-collect_users user (u ∷ users) seen = ground (
  arith,
  has-collect_users user users (Map.insert u tt seen),
  Map.has-insert u user tt seen,
  eq_iff u user,
  eq_iff user u,
)

-- Whether a user is a member of one of the groups.
abbrev member_of_any : RefIndex → String → List String → String → Bool
member_of_any idx app_id [] user = false
member_of_any idx app_id (g ∷ gs) user =
    (not (str_eq g "") && one_of user (Map.keys (inner (group_member_key app_id g) idx)))
    || member_of_any idx app_id gs user

has-collect_members :
    (idx : RefIndex) (app_id : String) (gs : List String) (user : String)
    (seen : Map {0, 0} String Unit)
    → Map.has user (collect_members idx app_id gs seen)
      ≡ (member_of_any idx app_id gs user || Map.has user seen)
unfolding collect_members
has-collect_members idx app_id [] user seen = refl
has-collect_members idx app_id (g ∷ gs) user seen =
    let users = Map.keys (inner (group_member_key app_id g) idx) in
    elim (Bool-cases (str_eq g "")) [
      | inl e ↦ rw e (has-collect_members idx app_id gs user seen)
      | inr e ↦ rw e (
          has-collect_members idx app_id gs user (collect_users users seen)
          ∙ ground (arith, has-collect_users user users seen))
    ]

listed_members :
    (idx : RefIndex) (app_id : String) (gs : List String) (user : String)
    → one_of user (Map.keys (collect_members idx app_id gs [])) ≡ member_of_any idx app_id gs user
unfolding Map.has Map.lookup
listed_members idx app_id gs user =
    one_of-keys user (collect_members idx app_id gs [])
    ∙ has-collect_members idx app_id gs user []
    ∙ ground arith

abbrev Lists : RefIndex → String → String → String → Type 0
Lists idx app_id g user = one_of user (Map.keys (inner (group_member_key app_id g) idx)) ≡ true

member→group :
    (idx : RefIndex) (app_id : String) (gs : List String) (user : String)
    → member_of_any idx app_id gs user ≡ true
    → (g : String) × (one_of g gs ≡ true) × (g ≢ "") × Lists idx app_id g user
member→group idx app_id [] user h = cc
member→group idx app_id (g ∷ gs) user h =
    let here = one_of user (Map.keys (inner (group_member_key app_id g) idx)) in
    elim (Bool-cases (not (str_eq g "") && here)) [
      | inl e ↦ (g, ground (arith, eq_iff g g), ground (arith, e, eq_iff g ""), ground (arith, e))
      | inr e ↦
          let (k, listed, ne, found) = member→group idx app_id gs user (rw e at h) in
          (k, ground (arith, listed), ne, found)
    ]

group→member :
    (idx : RefIndex) (app_id : String) (gs : List String) (user g : String)
    → one_of g gs ≡ true
    → g ≢ ""
    → Lists idx app_id g user
    → member_of_any idx app_id gs user ≡ true
group→member idx app_id [] user g l ne h = cc
group→member idx app_id (k ∷ gs) user g l ne h = elim (Bool-cases (str_eq g k)) [
  | inl same ↦
      let at_k = subst (λ (x : String). Lists idx app_id x user) ((eq_iff g k).0 same) h in
      ground (arith, at_k, ne, same, eq_iff g k, eq_iff k "")
  | inr other ↦ ground (arith, group→member idx app_id gs user g (rw other at l) ne h)
]

-- The local members of some groups, as a sound registry answers, are exactly the users with a
-- registered connection that has the key of an app and of one of the groups whose id is not empty.
pub get_local_group_members-joined :
    (r : Registry)
    → IsSound r
    → (app_id : String) (gs : List String) (user : String)
    → (one_of user (get_local_group_members app_id gs r) ≡ true) ↔ (
        (g : String) × (one_of g gs ≡ true)
        × (g ≢ "")
        × HasKey group_keys r.users (group_member_key (normalize_app_id app_id) g) user)
unfolding get_local_group_members
get_local_group_members-joined r s app_id gs user =
    let app = normalize_app_id app_id in
    (
      λ h.
          let (g, l, ne, found) =
            member→group r.group_members app gs user
              (sym (listed_members r.group_members app gs user) ∙ h) in
          (g, l, ne, (at app g).0 found),
      λ (g, l, ne, k).
          listed_members r.group_members app gs user
          ∙ group→member r.group_members app gs user g l ne ((at app g).1 k),
    )
  where
    at :
        (app g : String)
        → Lists r.group_members app g user ↔ HasKey group_keys r.users (group_member_key app g) user
    at app g =
        Files-member group_keys r.users r.group_members s.nested s.groups_filed
          (group_member_key app g) user

-- The users of a value of an attribute are those with a connection that has it; an empty value is
-- not answered.
pub get_local_attr_users-answered :
    (r : Registry)
    → IsSound r
    → (app_id dim value user : String) (users : List String)
    → get_local_attr_users app_id dim value r ≡ some users
    → (value ≢ "")
      × ((one_of user users ≡ true)
          ↔ HasKey attr_keys r.users (attr_idx_key (normalize_app_id app_id) dim value) user)
unfolding get_local_attr_users
get_local_attr_users-answered r s app_id dim value user users h =
    elim (Bool-cases (str_eq value "")) [
      | inl empty ↦ absurd (ground (arith, rw empty at h))
      | inr valued ↦ (
        ground (arith, valued, eq_iff value ""),
        subst
            (λ (us : List String).
              (one_of user us ≡ true)
              ↔ HasKey attr_keys r.users (attr_idx_key (normalize_app_id app_id) dim value) user)
            (ground (arith, rw valued at h))
            (Files-member attr_keys r.users r.attrs s.nested s.attrs_filed
              (attr_idx_key (normalize_app_id app_id) dim value) user),
      )
    ]

-- The local users of a namespace that is not empty are those with a connection in it.
pub get_local_namespace_users-joined :
    (r : Registry)
    → IsSound r
    → (app_id namespace user : String) → namespace ≢ ""
    → (one_of user (get_local_namespace_users app_id namespace r) ≡ true)
      ↔ HasKey namespace_keys r.users (ns_idx_key (normalize_app_id app_id) namespace) user
unfolding get_local_namespace_users
get_local_namespace_users-joined r s app_id namespace user ne =
    elim (Bool-cases (str_eq namespace "")) [
      | inl empty ↦ absurd (ne ((eq_iff namespace "").0 empty))
      | inr named ↦ rw named (
          Files-member namespace_keys r.users r.namespaces s.nested s.namespaces_filed
            (ns_idx_key (normalize_app_id app_id) namespace) user)
    ]

-- ===== src/Connection/Registry/RoundTrip.antt =====
-- connection/sharded_registry.go: a client that joins and leaves again, one that joins as another kind, and
-- the cleared registry.
use go_wsc.Base.{
  ℕ, String, ◌≡◌, refl, sym, ap, inl, inr, Bool, true, false, ◌&&◌, none, some, List, arith, eq_iff,
  str_eq, if◌then◌else◌, Bool-cases, nat_eq, string_eq, pair_eq,
}
use go_wsc.Base.Int.{ℤ, pos, int64}
use go_wsc.Base.Map
use go_wsc.Base.Map.{Map}
use go_wsc.Base.Map.{weight}
use go_wsc.Base.Nested.{Nested, find, put, drop, find-put, find-drop, put-IsNested}
use go_wsc.Base.Nested.Sums.{total_of, total_of-put, total_of-drop}
use go_wsc.Connection.Refs.{RefIndex, refs, acquire_all, release_all}
use go_wsc.Connection.Refs.Counts.{refs-acquire_all, refs-release_all}
use go_wsc.Connection.Registry.{
  Client, Registry, register, unregister, remove_client, remove_found, is_sse, group_keys,
  namespace_keys, attr_keys, add_one, add_minus_one,
}
use go_wsc.Connection.Registry.Views.{Holds}
use go_wsc.Connection.Registry.Joins.{find-keep_self}
use go_wsc.Connection.Registry.Sound.{IsSound}

undone_at : (n : ℕ) → add_minus_one (add_one (int64 (pos n))) ≡ int64 (pos n)
unfolding add_one add_minus_one
undone_at n = ground arith

undone : (n : ℕ) (count : ℤ) → Holds count n → add_minus_one (add_one count) ≡ count
undone n count h = rw h (undone_at n)

undone_if :
    (b : Bool) (n : ℕ) (count : ℤ)
    → Holds count n
    → (if b
        then add_minus_one (if b && true then add_one count else count)
        else (if b && true then add_one count else count))
      ≡ count
undone_if true n count h = undone n count h
undone_if false n count h = refl

-- A map of maps that gains an entry and loses it again holds what it held.
find_undone :
    (key id k i : String) (v : Client) (m : Nested Client)
    → find key id m ≡ none
    → find k i (drop key id (put key id v m)) ≡ find k i m
find_undone key id k i v m fresh =
    rw (find-drop key k id i (put key id v m), find-put key k id i v m)
      (elim (Bool-cases (str_eq key k && str_eq id i)) [
        | inl own ↦
            let key_own : key ≡ k = ground (arith, own, eq_iff key k) in
            let id_own : id ≡ i = ground (arith, own, eq_iff id i) in
            rw own (rw (← key_own, ← id_own) (sym fresh))
        | inr other ↦ rw other refl
      ])

lookup_undone :
    (key k v : String) (m : Map String String)
    → Map.lookup key m ≡ none
    → Map.lookup k (Map.erase key (Map.insert key v m)) ≡ Map.lookup k m
lookup_undone key k v m free =
    rw (Map.lookup-erase key k (Map.insert key v m), Map.lookup-insert key k v m)
      (elim (Bool-cases (str_eq key k)) [
        | inl own ↦ rw (own, ← (eq_iff key k).0 own) (sym free)
        | inr other ↦ rw other refl
      ])

-- An index of which a key is taken and given back counts what it counted.
refs_undone :
    (keys : List String) (user k u : String) (idx : RefIndex)
    → refs k u (release_all keys user (acquire_all keys user idx)) ≡ refs k u idx
refs_undone keys user k u idx = ground (
  arith,
  refs-acquire_all keys user k u idx,
  refs-release_all keys user k u (acquire_all keys user idx),
)

-- What a caller sees of two registries that hold the same clients.
pub record SameView (a b : Registry) : Type 0 where
  pub clients : (user id : String) → find user id a.users ≡ find user id b.users
  pub owners : (id : String) → Map.lookup id a.owners ≡ Map.lookup id b.owners
  pub count : a.client_count ≡ b.client_count
  pub sse_count : a.sse_count ≡ b.sse_count
  pub groups : (key user : String) → refs key user a.group_members ≡ refs key user b.group_members
  pub namespaces : (key user : String) → refs key user a.namespaces ≡ refs key user b.namespaces
  pub attrs : (key user : String) → refs key user a.attrs ≡ refs key user b.attrs

module _ (c : Client) (r : Registry) where
  removed :
      remove_client c.id c.user_id (register c r)
      ≡ (unregister c.id c.user_id c (register c r), some c)
  unfolding register remove_client
  removed = rw (find-keep_self c r.users, remove_found) refl

  back :
      IsSound r
      → find c.user_id c.id r.users ≡ none
      → Map.lookup c.id r.owners ≡ none
      → SameView (unregister c.id c.user_id c (register c r)) r
  unfolding register unregister
  back s fresh free = record {
    clients = λ user id. find_undone c.user_id c.id user id c r.users fresh;
    owners = λ id. lookup_undone c.id id c.user_id r.owners free;
    count = rw fresh (undone (total_of (λ _. 1) r.users) r.client_count s.clients_held);
    sse_count = rw fresh (
        undone_if (is_sse c) (total_of (λ d. if is_sse d then 1 else 0) r.users) r.sse_count
          s.sse_held);
    groups = λ key user. rw fresh (refs_undone (group_keys c) c.user_id key user r.group_members);
    namespaces =
        λ key user. rw fresh (refs_undone (namespace_keys c) c.user_id key user r.namespaces);
    attrs = λ key user. rw fresh (refs_undone (attr_keys c) c.user_id key user r.attrs);
  }

  retyped :
      (old : Client)
      → IsSound r
      → find c.user_id c.id r.users ≡ some old
      → is_sse old ≡ false
      → is_sse c ≡ true
      → ((unregister c.id c.user_id c (register c r)).sse_count ≡ add_minus_one r.sse_count)
        × (total_of
              (λ d. if is_sse d then 1 else 0)
              (unregister c.id c.user_id c (register c r)).users
            ≡ total_of (λ d. if is_sse d then 1 else 0) r.users)
  unfolding register unregister
  retyped old s e not_sse sse =
      let kept = total_of-put (λ d. if is_sse d then 1 else 0) c.user_id c.id c r.users in
      let left =
        total_of-drop (λ d. if is_sse d then 1 else 0) c.user_id c.id (put c.user_id c.id c r.users)
          (put-IsNested c.user_id c.id c r.users s.nested) in
      (
        rw (sse, e) refl,
        (omega (
          arith,
          kept,
          left,
          ap (weight (λ d. if is_sse d then 1 else 0)) e,
          ap (weight (λ d. if is_sse d then 1 else 0)) (find-keep_self c r.users),
          ap {B = ℕ} (λ (b : Bool). if b then 1 else 0) not_sse,
          ap {B = ℕ} (λ (b : Bool). if b then 1 else 0) sse,
        )),
      )

  -- In a sound registry, a client whose id nobody has, and that joins and leaves, is the one that
  -- is removed, and then these are as before: the client under each user and id, the user of each
  -- id, the counters of clients and of SSE clients, and what the three reverse indexes count.
  pub remove_client-register :
      IsSound r
      → find c.user_id c.id r.users ≡ none
      → Map.lookup c.id r.owners ≡ none
      → ((remove_client c.id c.user_id (register c r)).1 ≡ some c)
        × SameView (remove_client c.id c.user_id (register c r)).0 r
  remove_client-register s fresh free = rw removed (refl, back s fresh free)

  -- An SSE client that replaces a client of a sound registry that is none, and leaves again, takes
  -- one off the counter of the SSE clients, though as many SSE clients are registered as before.
  pub sse_count-retyped :
      (old : Client)
      → IsSound r
      → find c.user_id c.id r.users ≡ some old
      → is_sse old ≡ false
      → is_sse c ≡ true
      → ((remove_client c.id c.user_id (register c r)).0.sse_count ≡ add_minus_one r.sse_count)
        × (total_of
              (λ d. if is_sse d then 1 else 0)
              (remove_client c.id c.user_id (register c r)).0.users
            ≡ total_of (λ d. if is_sse d then 1 else 0) r.users)
  sse_count-retyped old s e not_sse sse = rw removed (retyped old s e not_sse sse)

-- ===== src/Connection/Registry/Runs.antt =====
-- connection/sharded_registry.go: runs of calls that register and remove clients.
use go_wsc.Base.{
  String, ◌≡◌, refl, sym, inl, inr, Bool, Option, none, some, List, [], ◌∷◌, Option-cases, nat_eq,
  string_eq, pair_eq,
}
use go_wsc.Base.Map
use go_wsc.Base.Map.{Map}
use mathlib.Core.Path.{subst}
use go_wsc.Base.Nested.{find}
use go_wsc.Connection.Refs.Counts.{IsRefs}
use go_wsc.Connection.Registry.{
  Client, Registry, new_sharded_registry, register, add_client, unregister, remove_client,
  remove_found,
}
use go_wsc.Connection.Registry.Sound.{IsSound, Fits, register-IsSound, unregister-IsSound}

empty-IsRefs : IsRefs []
unfolding Map.lookup
empty-IsRefs = record {
  nested = record { distinct = tt; filled = λ k entries e. cc };
  positive = λ k u n e. cc;
}

pub new_sharded_registry-IsSound :
    (agents observers : Bool) → IsSound (new_sharded_registry agents observers)
unfolding new_sharded_registry Map.lookup
new_sharded_registry-IsSound agents observers = record {
  nested = record { distinct = tt; filled = λ k entries e. cc };
  places = λ u i c e. cc;
  owns = (λ u i c e. cc, λ u i e. cc);
  clients_held = refl;
  users_held = refl;
  sse_selected = (record { distinct = tt; filled = λ k entries e. cc }, λ u i. refl);
  sse_held = refl;
  observers_selected = (record { distinct = tt; filled = λ k entries e. cc }, λ u i. refl);
  observers_held = refl;
  agents_selected = (record { distinct = tt; filled = λ k entries e. cc }, λ u i. refl);
  agents_held = refl;
  groups_filed = (empty-IsRefs, λ k u. refl);
  namespaces_filed = (empty-IsRefs, λ k u. refl);
  attrs_filed = (empty-IsRefs, λ k u. refl);
}

pub remove_client-IsSound :
    (id user : String) (r : Registry) → IsSound r → IsSound (remove_client id user r).0
unfolding remove_client
remove_client-IsSound id user r s = elim (Option-cases (find user id r.users)) [
  | inl e ↦ rw (e, remove_found) s
  | inr (c, e) ↦
      let (u, i) = s.places user id c e in
      let here : find c.user_id c.id r.users ≡ some c =
        subst (λ (x : String). find x c.id r.users ≡ some c) (sym u)
          (subst (λ (x : String). find user x r.users ≡ some c) (sym i) e) in
      rw (e, remove_found)
        (subst (λ (x : String). IsSound (unregister id x c r)) u
          (subst (λ (x : String). IsSound (unregister x c.user_id c r)) i
            (unregister-IsSound c r here s)))
]

-- A call that changes the registry.
pub data Call : Type 0 where
  add : Option Client → Call
  remove : String → String → Call

abbrev pub perform : Call → Registry → Registry
perform (add c) r = add_client c r
perform (remove id user) r = (remove_client id user r).0

unfoldable pub run : List Call → Registry → Registry
run [] r = r
run (c ∷ cs) r = run cs (perform c r)

-- Every client that is added fits at its time.
abbrev pub IsFitting : List Call → Registry → Type 0
IsFitting [] r = Unit
IsFitting (add none ∷ cs) r = IsFitting cs r
IsFitting (add (some c) ∷ cs) r = Fits c r × IsFitting cs (register c r)
IsFitting (remove id user ∷ cs) r = IsFitting cs (remove_client id user r).0

-- Over any run of calls that add and remove clients, from a sound registry, where a client is added
-- only if its id is not one of another user and it is like the client that it replaces, the
-- registry stays sound: each client stands under its user and id, the counters hold the numbers of
-- clients, users, SSE clients, observing users and serving users, the indexes hold the clients of
-- their kind, and the reverse indexes count the connections of each user under each key.
pub run-IsSound : (cs : List Call) (r : Registry) → IsFitting cs r → IsSound r → IsSound (run cs r)
unfolding run add_client
run-IsSound [] r f s = s
run-IsSound (add none ∷ cs) r f s = run-IsSound cs r f s
run-IsSound (add (some c) ∷ cs) r f s =
    run-IsSound cs (register c r) f.1 (register-IsSound c r f.0 s)
run-IsSound (remove id user ∷ cs) r f s =
    run-IsSound cs (remove_client id user r).0 f (remove_client-IsSound id user r s)

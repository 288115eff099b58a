-- ===== src/Connection/Registry/Answers.antt =====
-- connection/sharded_registry.go: what a sound registry answers, by the clients that are registered.
use go_wsc.Base.{
  ◌<◌, String, ◌≡◌, refl, sym, ap, ◌∙◌, ◌≢◌, ◌↔◌, ◌⊎◌, inl, inr, true, Option, none, some, List, [],
  ◌∷◌, ◌>>=◌, arith, eq_iff, str_eq, Bool-cases, Option-cases, nat_eq, string_eq, pair_eq, one_of,
}
use go_wsc.Base.Map
use go_wsc.Base.Map.{Map}
use go_wsc.Base.Map.{weight}
use mathlib.Core.Path.{subst}
use go_wsc.Base.Entries.{any→some, some→any, one_of-keys, has→some, some→has, sum_at, sum_positive}
use go_wsc.Base.Nested.{Nested, IsNested, inner, find, inner-IsMap}
use go_wsc.Connection.Refs.{RefIndex}
use go_wsc.Connection.Refs.Counts.{occurrences}
use go_wsc.Connection.Registry.{Client, Registry}
use go_wsc.Connection.Registry.Views.{Files}
use go_wsc.Connection.Registry.Sound.{IsSound}
use go_wsc.Connection.Registry.Queries.{get_client, client_matches_envelope, has_user}

-- In a sound registry the client of an id is exactly the one that is registered under that id for
-- its own user.
pub get_client-found :
    (r : Registry)
    → IsSound r
    → (id : String) (c : Client)
    → (get_client id r ≡ some c) ↔ ((c.id ≡ id) × (find c.user_id id r.users ≡ some c))
unfolding get_client
get_client-found r s id c = (to (Map.lookup id r.owners) refl, from)
  where
    to :
        (o : Option String)
        → Map.lookup id r.owners ≡ o
        → (o >>= λ user. find user id r.users) ≡ some c
        → (c.id ≡ id) × (find c.user_id id r.users ≡ some c)
    to none e h = cc
    to (some user) e h =
        let (own, named) = s.places user id c h in
        (named, subst (λ u. find u id r.users ≡ some c) (sym own) h)

    from :
        (c.id ≡ id) × (find c.user_id id r.users ≡ some c)
        → (Map.lookup id r.owners >>= λ user. find user id r.users) ≡ some c
    from h = rw (s.owns.0 c.user_id id c h.1) (h.1)

-- In a sound registry, and for an app that is named, a user is online exactly when a registered
-- connection of the user is of the app, and of the namespace if that is named.
pub has_user-matches :
    (r : Registry)
    → IsSound r
    → (user app_id namespace : String) → app_id ≢ ""
    → (has_user user app_id namespace r ≡ true) ↔ (
        (id : String) × (c : Client) × (find user id r.users ≡ some c)
        × (c.app_id ≡ app_id)
        × ((namespace ≡ "") ⊎ (c.namespace ≡ namespace)))
unfolding has_user client_matches_envelope
has_user-matches r s user app_id namespace ne = elim (Bool-cases (str_eq app_id "")) [
  | inl empty ↦ absurd (ne ((eq_iff app_id "").0 empty))
  | inr named ↦ rw named (
    λ h.
        let (id, c, found, m) =
          any→some (λ c. client_matches_envelope c app_id namespace []) (inner user r.users)
            (inner-IsMap user r.users s.nested) h in
        (
          id,
          c,
          found,
          ground (arith, m, eq_iff c.app_id app_id),
          ground (arith, m, eq_iff namespace "", eq_iff c.namespace namespace),
        ),
    λ (id, c, found, app, ns).
        some→any (λ c. client_matches_envelope c app_id namespace []) id c (inner user r.users)
          found
          (ground (
            arith,
            app,
            ns,
            eq_iff c.app_id app_id,
            eq_iff namespace "",
            eq_iff c.namespace namespace,
          )),
  )
]

occurrences-pos :
    (key : String) (keys : List String) → (0 < occurrences key keys) ↔ (one_of key keys ≡ true)
occurrences-pos key [] = ground arith
occurrences-pos key (k ∷ keys) =
    ground (arith, eq_iff k key, eq_iff key k, occurrences-pos key keys)

-- A user has a connection with the key.
abbrev pub HasKey : (Client → List String) → Nested Client → String → String → Type 0
HasKey keys m key user =
    (id : String) × (c : Client) × (find user id m ≡ some c) × (one_of key (keys c) ≡ true)

-- The users under a key are those with a connection that has the key.
module _ (keys : Client → List String) (m : Nested Client) (idx : RefIndex) (nested : IsNested m)
    (s : Files keys m idx) (key user : String) where
  indexed→HasKey : Map.has user (inner key idx) ≡ true → HasKey keys m key user
  indexed→HasKey h =
      let (n, e) = has→some user (inner key idx) h in
      let (id, c, found, p) =
        sum_positive (λ d. occurrences key (keys d)) (inner user m) (inner-IsMap user m nested)
          (omega (arith, s.1 key user, s.0.positive key user n e, ap (weight (λ n. n)) e)) in
      (id, c, found, (occurrences-pos key (keys c)).0 p)

  HasKey→indexed : HasKey keys m key user → Map.has user (inner key idx) ≡ true
  HasKey→indexed (id, c, found, p) = elim (Option-cases (Map.lookup user (inner key idx))) [
    | inl missing ↦ absurd (
        omega (
          arith,
          s.1 key user,
          ap (weight (λ n. n)) missing,
          sum_at (λ d. occurrences key (keys d)) id c (inner user m) found,
          (occurrences-pos key (keys c)).1 p,
        ))
    | inr (n, e) ↦ some→has user n (inner key idx) e
  ]

  -- The list of the users under the key.
  pub Files-member : (one_of user (Map.keys (inner key idx)) ≡ true) ↔ HasKey keys m key user
  Files-member = (
    λ h. indexed→HasKey (rw (one_of-keys user (inner key idx)) at h),
    λ h. one_of-keys user (inner key idx) ∙ HasKey→indexed h,
  )

-- ===== src/Connection/Registry/Joins.antt =====
-- connection/sharded_registry.go: the counters and indexes of the registry after a client has joined.
use go_wsc.Base.{
  ℕ, ◌+◌, String, ◌≡◌, refl, sym, ap, ◌∙◌, inl, inr, Bool, true, false, not, ◌&&◌, Option, none,
  some, List, arith, eq_iff, str_eq, if◌then◌else◌, Bool-cases, Option-cases, nat_eq, string_eq,
  pair_eq, agrees_refl, length,
}
use go_wsc.Base.Int.{ℤ}
use go_wsc.Base.Map
use go_wsc.Base.Map.{Map}
use go_wsc.Base.Map.{weight}
use mathlib.Core.Path.{subst}
use go_wsc.Base.Nested.{Nested, find, put, find-put, put-IsNested}
use go_wsc.Base.Nested.Sums.{sum_of, total_of, sum_of-put, total_of-put, length-put}
use go_wsc.Connection.Refs.{RefIndex, acquire_all}
use go_wsc.Connection.Refs.Counts.{occurrences, refs-acquire_all, acquire_all-IsRefs}
use go_wsc.Connection.Registry.{Client, add_one, is_present}
use go_wsc.Connection.Registry.Views.{
  Holds, Holds-more, select, Selects, Files, Owns, Places, Agrees,
}

module _ (c : Client) (m : Nested Client) where
  abbrev is_new : Bool
  is_new = not (is_present (find c.user_id c.id m))

  total_of-keep :
      (f : Client → ℕ)
      → Agrees c m f
      → total_of f (put c.user_id c.id c m) ≡ total_of f m + (if is_new then f c else 0)
  total_of-keep f h = elim (Option-cases (find c.user_id c.id m)) [
    | inl e ↦ rw e (omega (arith, rw e at (total_of-put f c.user_id c.id c m)))
    | inr (old, e) ↦ rw e (omega (arith, rw e at (total_of-put f c.user_id c.id c m), h old e))
  ]

  pub keep-clients_held :
      (count : ℤ)
      → Holds count (total_of (λ _. 1) m)
      → Holds (if is_new then add_one count else count) (total_of (λ _. 1) (put c.user_id c.id c m))
  keep-clients_held count =
      Holds-more is_new count (total_of (λ _. 1) m) (total_of (λ _. 1) (put c.user_id c.id c m))
        (ground (arith, total_of-keep (λ _. 1) (λ old e. refl)))

  pub keep-kind_held :
      (p : Client → Bool) (count : ℤ)
      → Agrees c m p
      → Holds count (total_of (λ d. if p d then 1 else 0) m)
      → Holds
          (if p c && is_new then add_one count else count)
          (total_of (λ d. if p d then 1 else 0) (put c.user_id c.id c m))
  keep-kind_held p count h =
      Holds-more (p c && is_new) count (total_of (λ d. if p d then 1 else 0) m)
        (total_of (λ d. if p d then 1 else 0) (put c.user_id c.id c m))
        (ground (
          arith,
          total_of-keep (λ d. if p d then 1 else 0)
              (λ old e. ap (λ b. if b then 1 else 0) (h old e)),
        ))

  sum_of-keep :
      (f : Client → ℕ) (user : String)
      → Agrees c m f
      → sum_of f user (put c.user_id c.id c m)
        ≡ sum_of f user m + (if is_new then (if str_eq c.user_id user then f c else 0) else 0)
  sum_of-keep f user h = elim (Option-cases (find c.user_id c.id m)) [
    | inl e ↦ rw e (ground (arith, rw e at (sum_of-put f c.user_id c.id user c m)))
    | inr (old, e) ↦ rw e (ground (arith, rw e at (sum_of-put f c.user_id c.id user c m), h old e))
  ]

  -- Whether a user and an id are those of the client.
  abbrev own : String → String → Bool
  own user id = str_eq c.user_id user && str_eq c.id id

  own→eq : (user id : String) → own user id ≡ true → (c.user_id ≡ user) × (c.id ≡ id)
  own→eq user id h = ground (arith, eq_iff c.user_id user, eq_iff c.id id)

  unselected :
      (p : Client → Bool) (kept : Nested Client)
      → Agrees c m p
      → p c ≡ false
      → Selects p m kept
      → find c.user_id c.id kept ≡ none
  unselected p kept h other s = s.1 c.user_id c.id ∙ go (find c.user_id c.id m) refl
    where
      go : (o : Option Client) → find c.user_id c.id m ≡ o → select p o ≡ none
      go none e = refl
      go (some old) e = rw (h old e, other) refl

  pub keep-Selects :
      (p : Client → Bool) (kept : Nested Client)
      → Agrees c m p
      → Selects p m kept
      → Selects p (put c.user_id c.id c m) (if p c then put c.user_id c.id c kept else kept)
  keep-Selects p kept h s = elim (Bool-cases (p c)) [
    | inl of_kind ↦ rw of_kind (
      put-IsNested c.user_id c.id c kept s.0,
      λ user id.
          rw (find-put c.user_id user c.id id c kept, find-put c.user_id user c.id id c m)
            (ground (arith, of_kind, s.1 user id)),
    )
    | inr other ↦ rw other (
      s.0,
      λ user id. elim (Bool-cases (own user id)) [
        | inl mine ↦
            let (u, i) = own→eq user id mine in
            rw (find-put c.user_id user c.id id c m, mine, other)
              (rw (← u, ← i) (unselected p kept h other s))
        | inr not_mine ↦ rw (find-put c.user_id user c.id id c m, not_mine) (s.1 user id)
      ],
    )
  ]

  pub keep-Files :
      (keys : Client → List String) (idx : RefIndex)
      → Agrees c m keys
      → Files keys m idx
      → Files keys
          (put c.user_id c.id c m)
          (if is_new then acquire_all (keys c) c.user_id idx else idx)
  keep-Files keys idx h s = elim (Bool-cases is_new) [
    | inl e ↦ rw e (
      acquire_all-IsRefs (keys c) c.user_id idx s.0,
      λ key user.
          refs-acquire_all (keys c) c.user_id key user idx
          ∙ ground (
            arith,
            s.1 key user,
            e,
            sum_of-keep (λ d. occurrences key (keys d)) user
                (λ old f. ap (occurrences key) (h old f)),
          ),
    )
    | inr e ↦ rw e (
      s.0,
      λ key user. ground (
        arith,
        s.1 key user,
        e,
        sum_of-keep (λ d. occurrences key (keys d)) user (λ old f. ap (occurrences key) (h old f)),
      ),
    )
  ]

  pub keep-Places : Places m → Places (put c.user_id c.id c m)
  keep-Places h user id d e = elim (Bool-cases (own user id)) [
    | inl mine ↦
        let same : c ≡ d = ground (arith, rw (find-put c.user_id user c.id id c m, mine) at e) in
        subst (λ (x : Client). (x.user_id ≡ user) × (x.id ≡ id)) same (own→eq user id mine)
    | inr other ↦ h user id d (rw (find-put c.user_id user c.id id c m, other) at e)
  ]

  find-keep_ne :
      (user id : String)
      → str_eq c.id id ≡ false
      → find user id (put c.user_id c.id c m) ≡ find user id m
  find-keep_ne user id h = find-put c.user_id user c.id id c m ∙ ground (arith, h)

  pub find-keep_self : find c.user_id c.id (put c.user_id c.id c m) ≡ some c
  find-keep_self =
      rw (find-put c.user_id c.user_id c.id c.id c m, agrees_refl c.user_id, agrees_refl c.id) refl

  module _ (owners : Map String String) (s : Owns m owners) where
    keep_owned :
        ((user : String) → Map.lookup c.id owners ≡ some user → user ≡ c.user_id)
        → (user id : String) (d : Client) → find user id (put c.user_id c.id c m) ≡ some d
        → Map.lookup id (Map.insert c.id c.user_id owners) ≡ some user
    keep_owned free user id d e =
        rw (Map.lookup-insert c.id id c.user_id owners) (elim (Bool-cases (str_eq c.id id)) [
          | inl same ↦ rw same (elim (Bool-cases (own user id)) [
            | inl mine ↦ ap some ((own→eq user id mine).0)
            | inr other ↦ ap some (
                sym (
                  free user (
                    rw ((string_eq.agrees_iff c.id id).0 same)
                      (s.0 user id d (rw (find-put c.user_id user c.id id c m, other) at e)))))
          ])
          | inr other ↦ rw other (s.0 user id d (rw (find-keep_ne user id other) at e))
        ])

    keep_owner :
        (user id : String)
        → Map.lookup id (Map.insert c.id c.user_id owners) ≡ some user
        → (d : Client) × (find user id (put c.user_id c.id c m) ≡ some d)
    keep_owner user id e = elim (Bool-cases (str_eq c.id id)) [
      | inl same ↦
          let mine : c.user_id ≡ user =
            ground (arith, rw (Map.lookup-insert c.id id c.user_id owners, same) at e) in
          (c, rw (← mine, ← (string_eq.agrees_iff c.id id).0 same) find-keep_self)
      | inr other ↦
          let (d, found) =
            s.1 user id (rw (Map.lookup-insert c.id id c.user_id owners, other) at e) in
          (d, find-keep_ne user id other ∙ found)
    ]

  -- The id belongs to no other user.
  pub keep-Owns :
      (owners : Map String String)
      → ((user : String) → Map.lookup c.id owners ≡ some user → user ≡ c.user_id)
      → Owns m owners
      → Owns (put c.user_id c.id c m) (Map.insert c.id c.user_id owners)
  keep-Owns owners free s = (keep_owned owners s free, keep_owner owners s)

-- The number of users who have connections in a map of them.
pub keep_counted :
    (b : Bool) (c : Client) (m : Nested Client) (count : ℤ)
    → Holds count (length m)
    → Holds
        (if b && not (Map.has c.user_id m) then add_one count else count)
        (length (if b then put c.user_id c.id c m else m))
keep_counted false c m count h = h
keep_counted true c m count h =
    Holds-more (not (Map.has c.user_id m)) count (length m) (length (put c.user_id c.id c m))
      (ground (arith, length-put c.user_id c.id c m)) h

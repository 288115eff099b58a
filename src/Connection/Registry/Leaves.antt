-- ===== src/Connection/Registry/Leaves.antt =====
-- connection/sharded_registry.go: the counters and indexes of the registry after a client has left.
use go_wsc.Base.{
  String, ◌≡◌, refl, ◌∙◌, inl, inr, Bool, true, false, ◌&&◌, some, List, arith, eq_iff, str_eq,
  if◌then◌else◌, Bool-cases, nat_eq, string_eq, pair_eq, length,
}
use go_wsc.Base.Int.{ℤ}
use go_wsc.Base.Map
use go_wsc.Base.Map.{Map}
use go_wsc.Base.Map.{weight}
use go_wsc.Base.Nested.{Nested, IsNested, find, drop, find-drop, drop-IsNested}
use go_wsc.Base.Nested.Sums.{total_of, sum_of-drop, total_of-drop, length-drop}
use go_wsc.Connection.Refs.{RefIndex, release_all}
use go_wsc.Connection.Refs.Counts.{occurrences, refs-release_all, release_all-IsRefs}
use go_wsc.Connection.Registry.{Client, add_minus_one, vacates}
use go_wsc.Connection.Registry.Views.{Holds, Holds-less, Selects, Files, Owns, Places}

-- The number of users who have connections in a map of them.
pub drop_counted :
    (b : Bool) (user id : String) (m : Nested Client) (count : ℤ)
    → IsNested m
    → Holds count (length m)
    → Holds
        (if b && vacates user id m then add_minus_one count else count)
        (length (if b then drop user id m else m))
unfolding vacates
drop_counted false user id m count nested h = h
drop_counted true user id m count nested h =
    Holds-less (vacates user id m) count (length m) (length (drop user id m))
      (ground (arith, length-drop user id m nested)) h

module _ (user id : String) (c : Client) (m : Nested Client) (e : find user id m ≡ some c) where
  pub drop-clients_held :
      (count : ℤ)
      → IsNested m
      → Holds count (total_of (λ _. 1) m)
      → Holds (add_minus_one count) (total_of (λ _. 1) (drop user id m))
  drop-clients_held count nested =
      Holds-less true count (total_of (λ _. 1) m) (total_of (λ _. 1) (drop user id m))
        (ground (arith, rw e at (total_of-drop (λ _. 1) user id m nested)))

  pub drop-kind_held :
      (p : Client → Bool) (count : ℤ)
      → IsNested m
      → Holds count (total_of (λ d. if p d then 1 else 0) m)
      → Holds
          (if p c then add_minus_one count else count)
          (total_of (λ d. if p d then 1 else 0) (drop user id m))
  drop-kind_held p count nested =
      Holds-less (p c) count (total_of (λ d. if p d then 1 else 0) m)
        (total_of (λ d. if p d then 1 else 0) (drop user id m))
        (ground (arith, rw e at (total_of-drop (λ d. if p d then 1 else 0) user id m nested)))

  abbrev mine : String → String → Bool
  mine u i = str_eq user u && str_eq id i

  mine→eq : (u i : String) → mine u i ≡ true → (user ≡ u) × (id ≡ i)
  mine→eq u i h = ground (arith, eq_iff user u, eq_iff id i)

  pub drop-Selects :
      (p : Client → Bool) (kept : Nested Client)
      → Selects p m kept
      → Selects p (drop user id m) (if p c then drop user id kept else kept)
  drop-Selects p kept s = elim (Bool-cases (p c)) [
    | inl of_kind ↦ rw of_kind (
      drop-IsNested user id kept s.0,
      λ u i.
          rw (find-drop user u id i kept, find-drop user u id i m)
            (elim (Bool-cases (mine u i)) [
              | inl own ↦ rw own refl
              | inr other ↦ rw other (s.1 u i)
            ]),
    )
    | inr other ↦ rw other (
      s.0,
      λ u i. rw (find-drop user u id i m) (elim (Bool-cases (mine u i)) [
        | inl own ↦
            let (eu, ei) = mine→eq u i own in
            rw (own, ← eu, ← ei) (s.1 user id ∙ rw (e, other) refl)
        | inr not_own ↦ rw not_own (s.1 u i)
      ]),
    )
  ]

  pub drop-Files :
      (keys : Client → List String) (idx : RefIndex)
      → IsNested m
      → Files keys m idx
      → Files keys (drop user id m) (release_all (keys c) user idx)
  drop-Files keys idx nested s = (
    release_all-IsRefs (keys c) user idx s.0,
    λ key u.
        refs-release_all (keys c) user key u idx
        ∙ ground (
          arith,
          s.1 key u,
          rw e at (sum_of-drop (λ d. occurrences key (keys d)) user id u m nested),
        ),
  )

  pub drop-Places : Places m → Places (drop user id m)
  drop-Places h u i d f = elim (Bool-cases (mine u i)) [
    | inl own ↦ ground (arith, rw (find-drop user u id i m, own) at f)
    | inr other ↦ h u i d (rw (find-drop user u id i m, other) at f)
  ]

  module _ (owners : Map String String) (s : Owns m owners) where
    drop_owned :
        (u i : String) (d : Client)
        → find u i (drop user id m) ≡ some d
        → Map.lookup i (Map.erase id owners) ≡ some u
    drop_owned u i d f = elim (Bool-cases (mine u i)) [
      | inl own ↦ absurd (ground (arith, rw (find-drop user u id i m, own) at f))
      | inr other ↦
          let kept : Map.lookup i owners ≡ some u =
            s.0 u i d (rw (find-drop user u id i m, other) at f) in
          rw (Map.lookup-erase id i owners) (elim (Bool-cases (str_eq id i)) [
            | inl same ↦ absurd (
                ground (
                  arith,
                  other,
                  same,
                  eq_iff user u,
                  kept,
                  rw ((string_eq.agrees_iff id i).0 same) at (s.0 user id c e),
                ))
            | inr other_id ↦ rw other_id kept
          ])
    ]

    drop_owner :
        (u i : String)
        → Map.lookup i (Map.erase id owners) ≡ some u
        → (d : Client) × (find u i (drop user id m) ≡ some d)
    drop_owner u i f = elim (Bool-cases (str_eq id i)) [
      | inl same ↦ absurd (ground (arith, rw (Map.lookup-erase id i owners, same) at f))
      | inr other ↦
          let (d, found) = s.1 u i (rw (Map.lookup-erase id i owners, other) at f) in
          (d, find-drop user u id i m ∙ ground (arith, other, found))
    ]

  pub drop-Owns :
      (owners : Map String String) → Owns m owners → Owns (drop user id m) (Map.erase id owners)
  drop-Owns owners s = (drop_owned owners s, drop_owner owners s)

-- ===== src/Connection/Refs/Counts.antt =====
-- connection/sharded_registry.go: what the reverse indexes count after connections join and leave.
use go_wsc.Base.{
  ℕ, suc, ◌+◌, ◌-◌, String, ◌≡◌, ◌≢◌, inl, inr, Bool, ◌&&◌, some, List, [], ◌∷◌, arith, leb, str_eq,
  if◌then◌else◌, Bool-cases, Option-cases, nat_eq, string_eq, pair_eq,
}
use go_wsc.Base.Map
use go_wsc.Base.Map.{Map}
use go_wsc.Base.Map.{weight}
use go_wsc.Base.Nested.{IsNested, find, find-put, inner-settle, put-IsNested, settle-IsNested}
use go_wsc.Connection.Refs.{
  RefIndex, refs, acquire, lower, release_from, release, acquire_all, release_all,
}

-- How often a key occurs.
abbrev pub occurrences : String → List String → ℕ
occurrences key [] = 0
occurrences key (k ∷ ks) = (if str_eq k key then 1 else 0) + occurrences key ks

abbrev hit : Bool → ℕ
hit b = if b then 1 else 0

refs-acquire :
    (key user k u : String) (idx : RefIndex)
    → refs k u (acquire key user idx) ≡ refs k u idx + hit (str_eq key k && str_eq user u)
unfolding acquire
refs-acquire key user k u idx =
    rw (find-put key k user u (suc (refs key user idx)) idx) (elim (Bool-cases (str_eq key k)) [
      | inl same ↦ rw same (elim (Bool-cases (str_eq user u)) [
        | inl own ↦
            rw (own, (string_eq.agrees_iff key k).0 same, (string_eq.agrees_iff user u).0 own)
              (omega arith)
        | inr other ↦ rw other (omega arith)
      ])
      | inr other ↦ rw other (omega arith)
    ])

weight-lower :
    (user u : String) (users : Map String ℕ)
    → weight (λ n. n) (Map.lookup u (lower user users))
      ≡ weight (λ n. n) (Map.lookup u users) - hit (str_eq user u)
unfolding lower
weight-lower user u users = elim (Bool-cases (leb (weight (λ n. n) (Map.lookup user users)) 1)) [
  | inl few ↦
      rw few (rw (Map.lookup-erase user u users) (ground (arith, string_eq.agrees_iff user u, few)))
  | inr more ↦ rw more (
      rw (Map.lookup-insert user u (weight (λ n. n) (Map.lookup user users) - 1) users)
        (ground (arith, string_eq.agrees_iff user u, more)))
]

refs-release :
    (key user k u : String) (idx : RefIndex)
    → refs k u (release key user idx) ≡ refs k u idx - hit (str_eq key k && str_eq user u)
unfolding release release_from
refs-release key user k u idx = elim (Option-cases (Map.lookup key idx)) [
  | inl missing ↦ rw missing (elim (Bool-cases (str_eq key k)) [
    | inl same ↦
        rw (same, ← (string_eq.agrees_iff key k).0 same)
          (rw missing (unfold Map.lookup in ground arith))
    | inr other ↦ rw other (omega arith)
  ])
  | inr (users, p) ↦ rw p (
      rw (inner-settle key k (lower user users) idx) (elim (Bool-cases (str_eq key k)) [
        | inl same ↦
            rw (same, ← (string_eq.agrees_iff key k).0 same) (rw p (weight-lower user u users))
        | inr other ↦ rw other (omega arith)
      ]))
]

-- Each key has users, and each of them has a connection.
pub record IsRefs (idx : RefIndex) : Type 0 where
  pub nested : IsNested idx
  pub positive : (k u : String) (n : ℕ) → find k u idx ≡ some n → n ≢ 0

acquire-IsRefs : (key user : String) (idx : RefIndex) → IsRefs idx → IsRefs (acquire key user idx)
unfolding acquire
acquire-IsRefs key user idx h = record {
  nested = put-IsNested key user (suc (refs key user idx)) idx h.nested;
  positive = λ k u n e. elim (Bool-cases (str_eq key k && str_eq user u)) [
    | inl own ↦ ground (arith, rw (find-put key k user u (suc (refs key user idx)) idx, own) at e)
    | inr other ↦
        h.positive k u n (rw (find-put key k user u (suc (refs key user idx)) idx, other) at e)
  ];
}

lower-IsMap :
    (user : String) (users : Map String ℕ) → Map.IsMap users → Map.IsMap (lower user users)
unfolding lower
lower-IsMap user users h = elim (Bool-cases (leb (weight (λ n. n) (Map.lookup user users)) 1)) [
  | inl few ↦ rw few (Map.erase-IsMap user users h)
  | inr more ↦ rw more (Map.insert-IsMap user (weight (λ n. n) (Map.lookup user users) - 1) users h)
]

lower_positive :
    (user u : String) (users : Map String ℕ) (n : ℕ)
    → ((m : ℕ) → Map.lookup u users ≡ some m → m ≢ 0)
    → Map.lookup u (lower user users) ≡ some n
    → n ≢ 0
unfolding lower
lower_positive user u users n h e =
    elim (Bool-cases (leb (weight (λ n. n) (Map.lookup user users)) 1)) [
      | inl few ↦ elim (Bool-cases (str_eq user u)) [
        | inl own ↦ cc (rw (few, Map.lookup-erase user u users, own) at e)
        | inr other ↦ h n (rw (few, Map.lookup-erase user u users, other) at e)
      ]
      | inr more ↦
          let kept = Map.lookup-insert user u (weight (λ n. n) (Map.lookup user users) - 1) users in
          elim (Bool-cases (str_eq user u)) [
            | inl own ↦ ground (arith, rw (more, kept, own) at e)
            | inr other ↦ h n (rw (more, kept, other) at e)
          ]
    ]

release-IsRefs : (key user : String) (idx : RefIndex) → IsRefs idx → IsRefs (release key user idx)
unfolding release release_from
release-IsRefs key user idx h = elim (Option-cases (Map.lookup key idx)) [
  | inl missing ↦ rw missing h
  | inr (users, p) ↦ rw p (record {
    nested =
        settle-IsNested key (lower user users) idx h.nested
          (lower-IsMap user users (h.nested.filled key users p).0);
    positive = λ k u n e. elim (Bool-cases (str_eq key k)) [
      | inl same ↦
          lower_positive user u users n (λ m f. h.positive key u m (rw p f))
            (rw (inner-settle key k (lower user users) idx, same) at e)
      | inr other ↦ h.positive k u n (rw (inner-settle key k (lower user users) idx, other) at e)
    ];
  })
]

pub refs-acquire_all :
    (keys : List String) (user k u : String) (idx : RefIndex)
    → refs k u (acquire_all keys user idx)
      ≡ refs k u idx + (if str_eq user u then occurrences k keys else 0)
unfolding acquire_all
refs-acquire_all [] user k u idx = ground arith
refs-acquire_all (key ∷ keys) user k u idx =
    ground
      (arith, refs-acquire_all keys user k u (acquire key user idx), refs-acquire key user k u idx)

pub refs-release_all :
    (keys : List String) (user k u : String) (idx : RefIndex)
    → refs k u (release_all keys user idx)
      ≡ refs k u idx - (if str_eq user u then occurrences k keys else 0)
unfolding release_all
refs-release_all [] user k u idx = ground arith
refs-release_all (key ∷ keys) user k u idx =
    ground
      (arith, refs-release_all keys user k u (release key user idx), refs-release key user k u idx)

pub acquire_all-IsRefs :
    (keys : List String) (user : String) (idx : RefIndex)
    → IsRefs idx
    → IsRefs (acquire_all keys user idx)
unfolding acquire_all
acquire_all-IsRefs [] user idx h = h
acquire_all-IsRefs (key ∷ keys) user idx h =
    acquire_all-IsRefs keys user (acquire key user idx) (acquire-IsRefs key user idx h)

pub release_all-IsRefs :
    (keys : List String) (user : String) (idx : RefIndex)
    → IsRefs idx
    → IsRefs (release_all keys user idx)
unfolding release_all
release_all-IsRefs [] user idx h = h
release_all-IsRefs (key ∷ keys) user idx h =
    release_all-IsRefs keys user (release key user idx) (release-IsRefs key user idx h)

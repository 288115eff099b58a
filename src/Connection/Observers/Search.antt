-- ===== src/Connection/Observers/Search.antt =====
-- connection/sharded_registry.go: the search for the observers of a message.
use go_wsc.Base.{
  String, ◌≡◌, refl, sym, ap, ◌∙◌, inl, inr, Bool, true, false, not, ◌&&◌, ◌||◌, List, [], ◌∷◌,
  ◌++◌, arith, str_eq, if◌then◌else◌, Bool-cases, nat_eq, string_eq, pair_eq,
}
use go_wsc.Base.Map
use go_wsc.Base.Map.{Map}
use go_wsc.Base.Nested.{inner}
use go_wsc.Connection.Observers.{
  Observer, ObserverIndex, Found, group_index_key, find_one, find_all, find_groups, get_for_message,
}

-- Whether a client of an id is among some.
abbrev pub has_id : String → List Observer → Bool
has_id id [] = false
has_id id (c ∷ cs) = str_eq c.id id || has_id id cs

-- No two have the same id.
abbrev pub Distinct : List Observer → Type 0
Distinct [] = Unit
Distinct (c ∷ cs) = (has_id c.id cs ≡ false) × Distinct cs

or_assoc : (a b c : Bool) → ((a || b) || c) ≡ (a || (b || c))
or_assoc true b c = refl
or_assoc false b c = refl

known : (i j : String) (cs : List Observer) → j ≡ i → has_id j cs ≡ has_id i cs
known i j cs e = ap (λ k. has_id k cs) e

has_id-append :
    (id : String) (xs ys : List Observer) → has_id id (xs ++ ys) ≡ (has_id id xs || has_id id ys)
has_id-append id [] ys = refl
has_id-append id (x ∷ xs) ys = ground (arith, has_id-append id xs ys)

Distinct-append :
    (xs : List Observer) (c : Observer)
    → Distinct xs
    → has_id c.id xs ≡ false
    → Distinct (xs ++ c ∷ [])
Distinct-append [] c d h = (refl, tt)
Distinct-append (x ∷ xs) c d h = (
  ground (
    arith,
    d.0,
    h,
    has_id-append x.id xs (c ∷ []),
    string_eq.agrees_iff x.id c.id,
    string_eq.agrees_iff c.id x.id,
  ),
  Distinct-append xs c d.1 (ground (arith, h)),
)

-- The clients that the index keeps for a message.
abbrev of_groups : ObserverIndex → String → List String → List Observer
of_groups idx namespace [] = []
of_groups idx namespace (g ∷ gs) =
    (if str_eq g "" then [] else Map.values (inner (group_index_key namespace g) idx.by_group))
    ++ of_groups idx namespace gs

abbrev pub candidates : String → List String → ObserverIndex → List Observer
candidates namespace group_ids idx =
    Map.values idx.global
    ++ (Map.values (inner namespace idx.by_namespace) ++ of_groups idx namespace group_ids)

module _ (closed : Observer → Bool) where
  -- Whether an open client of an id is among some.
  abbrev pub has_open : String → List Observer → Bool
  has_open id [] = false
  has_open id (c ∷ cs) = (not (closed c) && str_eq c.id id) || has_open id cs

  record IsFound (f : Found) : Type 0 where
    seen_ids : (id : String) → Map.has id f.0 ≡ has_id id f.1
    distinct : Distinct f.1

  find_one-IsFound : (c : Observer) (f : Found) → IsFound f → IsFound (find_one closed c f)
  unfolding find_one
  find_one-IsFound c (seen, result) i = elim (Bool-cases (closed c)) [
    | inl shut ↦ rw shut i
    | inr opened ↦ rw opened (elim (Bool-cases (Map.has c.id seen)) [
      | inl old ↦ rw old i
      | inr new ↦ rw new (record {
        seen_ids = λ id. ground (
          arith,
          Map.has-insert c.id id tt seen,
          has_id-append id result (c ∷ []),
          i.seen_ids id,
        );
        distinct = Distinct-append result c i.distinct (sym (i.seen_ids c.id) ∙ new);
      })
    ])
  ]

  find_one-has_id :
      (id : String) (c : Observer) (f : Found)
      → IsFound f
      → has_id id (find_one closed c f).1 ≡ (has_id id f.1 || (not (closed c) && str_eq c.id id))
  unfolding find_one
  find_one-has_id id c (seen, result) i = elim (Bool-cases (closed c)) [
    | inl shut ↦ rw shut (ground arith)
    | inr opened ↦ rw opened (elim (Bool-cases (Map.has c.id seen)) [
      | inl old ↦
          rw old (
            ground
              (arith, i.seen_ids c.id, old, string_eq.agrees_iff c.id id, known id c.id result))
      | inr new ↦ rw new (rw (has_id-append id result (c ∷ [])) (ground arith))
    ])
  ]

  find_all-found :
      (id : String) (cs : List Observer) (f : Found)
      → IsFound f
      → IsFound (find_all closed cs f)
        × (has_id id (find_all closed cs f).1 ≡ (has_id id f.1 || has_open id cs))
  unfolding find_all
  find_all-found id [] f i = (i, ground arith)
  find_all-found id (c ∷ cs) f i =
      let (j, e) = find_all-found id cs (find_one closed c f) (find_one-IsFound c f i) in
      (j, ground (arith, e, find_one-has_id id c f i))

  has_open-append :
      (id : String) (xs ys : List Observer)
      → has_open id (xs ++ ys) ≡ (has_open id xs || has_open id ys)
  has_open-append id [] ys = refl
  has_open-append id (x ∷ xs) ys = ground (arith, has_open-append id xs ys)

  -- What a search from `f` that adds some clients comes to.
  abbrev Finds : String → List Observer → Found → Found → Type 0
  Finds id cs f g = IsFound g × (has_id id g.1 ≡ (has_id id f.1 || has_open id cs))

  Finds-append :
      (id : String) (xs ys : List Observer) (f g h : Found)
      → Finds id xs f g
      → Finds id ys g h
      → Finds id (xs ++ ys) f h
  Finds-append id xs ys f g h (i, a) (j, b) = (
    j,
    rw b (
        rw a (
          rw (has_open-append id xs ys)
            (or_assoc (has_id id f.1) (has_open id xs) (has_open id ys)))),
  )

  next_group :
      (id : String) (here rest : List Observer) (f : Found) (search : Found → Found)
      (unnamed : Bool)
      → IsFound f
      → ((e : Found) → IsFound e → Finds id rest e (search e))
      → Finds id
          ((if unnamed then [] else here) ++ rest)
          f
          (search (if unnamed then f else find_all closed here f))
  next_group id here rest f search true i r = r f i
  next_group id here rest f search false i r =
      let first = find_all-found id here f i in
      Finds-append id here rest f (find_all closed here f) _ first
        (r (find_all closed here f) first.0)

  find_groups-found :
      (id : String) (idx : ObserverIndex) (namespace : String) (gs : List String) (f : Found)
      → IsFound f
      → Finds id (of_groups idx namespace gs) f (find_groups closed idx namespace gs f)
  unfolding find_groups
  find_groups-found id idx namespace [] f i = (i, ground arith)
  find_groups-found id idx namespace (g ∷ gs) f i =
      next_group id (Map.values (inner (group_index_key namespace g) idx.by_group))
        (of_groups idx namespace gs) f (find_groups closed idx namespace gs) (str_eq g "") i
        (λ e k. find_groups-found id idx namespace gs e k)

  nothing-IsFound : IsFound ([], [])
  unfolding Map.has Map.lookup
  nothing-IsFound = record { seen_ids = λ id. refl; distinct = tt }

  -- The search for the observers of a message finds exactly the ids of the open clients that the
  -- index keeps for everything, for the namespace, or for one of the groups that are named, and
  -- finds none twice.
  pub get_for_message-has_id :
      (namespace : String) (group_ids : List String) (idx : ObserverIndex)
      → Distinct (get_for_message closed namespace group_ids idx)
        × ((id : String)
            → has_id id (get_for_message closed namespace group_ids idx)
              ≡ has_open id (candidates namespace group_ids idx))
  unfolding get_for_message
  get_for_message-has_id namespace group_ids idx = ((found "").0.distinct, λ id. (found id).1)
    where
      level : List Observer
      level = Map.values (inner namespace idx.by_namespace)

      everywhere : Found
      everywhere = find_all closed (Map.values idx.global) ([], [])

      found :
          (id : String)
          → Finds id
              (candidates namespace group_ids idx)
              ([], [])
              (find_groups closed idx namespace group_ids (find_all closed level everywhere))
      found id =
          let a = find_all-found id (Map.values idx.global) ([], []) nothing-IsFound in
          let b = find_all-found id level everywhere a.0 in
          let c =
            find_groups-found id idx namespace group_ids (find_all closed level everywhere) b.0 in
          Finds-append id (Map.values idx.global) (level ++ of_groups idx namespace group_ids)
            ([], []) everywhere _ a
            (Finds-append id level (of_groups idx namespace group_ids) everywhere
              (find_all closed level everywhere) _ b c)

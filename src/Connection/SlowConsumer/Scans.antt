-- ===== src/Connection/SlowConsumer/Scans.antt =====
-- connection/slow_consumer.go: a round of the scanner treats each client by its own ratios.
use go_wsc.Base.{
  String, ◌≡◌, refl, ap, ap₂, ◌∙◌, ◌↔◌, ◌⊎◌, inl, inr, Bool, true, false, ◌&&◌, ◌||◌, Option, none,
  some, List, [], ◌∷◌, ◌++◌, arith, eq_iff, str_eq, if◌then◌else◌, Bool-cases, nat_eq, string_eq,
  pair_eq, one_of,
}
use go_wsc.Base.Int.{ℤ}
use go_wsc.Base.Map
use go_wsc.Base.Map.{Map}
use go_wsc.Base.Tests.{if_cases}
use go_wsc.Connection.SlowConsumer.{
  SlowConsumerState, Measure, recovers, records, warns, evicts, States, govern, keep_state, Scanned,
  Round, apply_measure, scan_one, scan_all, clean,
}

keep_state-lookup :
    (k id : String) (o : Option SlowConsumerState) (m : States)
    → Map.lookup id (keep_state k o m) ≡ (if str_eq k id then o else Map.lookup id m)
unfolding keep_state
keep_state-lookup k id none m = Map.lookup-erase k id m
keep_state-lookup k id (some s) m = Map.lookup-insert k id s m

abbrev pub is_evicts : Measure → Bool
is_evicts recovers = false
is_evicts records = false
is_evicts warns = false
is_evicts evicts = true

pub evicts_iff : (m : Measure) → is_evicts m ≡ true ↔ m ≡ evicts
evicts_iff recovers = (λ e. ground (arith, e), λ e. ground (arith, e))
evicts_iff records = (λ e. ground (arith, e), λ e. ground (arith, e))
evicts_iff warns = (λ e. ground (arith, e), λ e. ground (arith, e))
evicts_iff evicts = (λ e. refl, λ e. refl)

pub clean-lookup :
    (exists : String → Bool) (id : String) (m : States)
    → exists id ≡ true
    → Map.lookup id (clean exists m) ≡ Map.lookup id m
unfolding clean Map.lookup
clean-lookup exists id [] e = refl
clean-lookup exists id ((k, s) ∷ m) e = elim (Bool-cases (str_eq k id)) [
  | inl same ↦
      let there : exists k ≡ true = ap exists ((eq_iff k id).0 same) ∙ e in rw (there, same) refl
  | inr other ↦ rw other (
      if_cases (λ x. Map.lookup id x ≡ Map.lookup id m) (exists k) ((k, s) ∷ clean exists m)
        (clean exists m) (λ there. rw other (clean-lookup exists id m e))
        (λ gone. clean-lookup exists id m e))
]

one_of-last :
    (id k : String) (xs : List String) → one_of id (xs ++ k ∷ []) ≡ (one_of id xs || str_eq k id)
one_of-last id k [] = ground (arith, eq_iff id k, eq_iff k id)
one_of-last id k (x ∷ xs) = ground (arith, one_of-last id k xs)

module _ {ℓ} {D : Type ℓ} where
  apply_measure-states :
      (hook : Bool) (sc : Scanned D) (m : Measure) (r : Round D)
      → (apply_measure hook sc m r).states ≡ r.states
  unfolding apply_measure
  apply_measure-states hook sc recovers r = refl
  apply_measure-states hook sc records r = refl
  apply_measure-states hook sc warns r = refl
  apply_measure-states hook sc evicts r = refl

  apply_measure-evicted :
      (id : String) (sc : Scanned D) (m : Measure) (r : Round D)
      → one_of id (apply_measure true sc m r).evicted
        ≡ (one_of id r.evicted || (str_eq sc.id id && is_evicts m))
  unfolding apply_measure
  apply_measure-evicted id sc recovers r = ground arith
  apply_measure-evicted id sc records r = ground arith
  apply_measure-evicted id sc warns r = ground arith
  apply_measure-evicted id sc evicts r = one_of-last id sc.id r.evicted ∙ ground arith

  scan_one-lookup :
      (hook : Bool) (id : String) (sc : Scanned D) (r : Round D)
      → Map.lookup id (scan_one hook sc r).states ≡ (
          if str_eq sc.id id
          then (govern sc.client.backlog_ratio (Map.lookup sc.id r.states)).0
          else Map.lookup id r.states)
  unfolding scan_one
  scan_one-lookup hook id sc r =
      let g = govern sc.client.backlog_ratio (Map.lookup sc.id r.states) in
      ap (λ m. Map.lookup id (keep_state sc.id g.0 m)) (apply_measure-states hook sc g.1 r)
      ∙ keep_state-lookup sc.id id g.0 r.states

  scan_one-evicted :
      (id : String) (sc : Scanned D) (r : Round D)
      → one_of id (scan_one true sc r).evicted ≡ (
          one_of id r.evicted
          || (str_eq sc.id id
              && is_evicts (govern sc.client.backlog_ratio (Map.lookup sc.id r.states)).1))
  unfolding scan_one
  scan_one-evicted id sc r =
      apply_measure-evicted id sc (govern sc.client.backlog_ratio (Map.lookup sc.id r.states)).1 r

  -- A client of another id leaves what is kept of this one.
  scan_one-other :
      (id : String) (sc : Scanned D) (r : Round D)
      → str_eq sc.id id ≡ false
      → (Map.lookup id (scan_one true sc r).states ≡ Map.lookup id r.states)
        × (one_of id (scan_one true sc r).evicted ≡ one_of id r.evicted)
  scan_one-other id sc r other = (
    scan_one-lookup true id sc r ∙ rw other refl,
    scan_one-evicted id sc r ∙ rw other (ground arith),
  )

  -- No client of the round has the id.
  abbrev pub Absent : String → List (Scanned D) → Type 0
  Absent id [] = Unit
  Absent id (sc ∷ scs) = (str_eq sc.id id ≡ false) × Absent id scs

  -- One client of the round has the id, and it has the ratio.
  abbrev pub Once : String → ℤ → List (Scanned D) → Type 0
  Once id ratio [] = ⊥
  Once id ratio (sc ∷ scs) =
      ((sc.id ≡ id) × (sc.client.backlog_ratio ≡ ratio) × Absent id scs)
      ⊎ ((str_eq sc.id id ≡ false) × Once id ratio scs)

  scan_all-Absent :
      (id : String) (scs : List (Scanned D)) (r : Round D)
      → Absent id scs
      → (Map.lookup id (scan_all true scs r).states ≡ Map.lookup id r.states)
        × (one_of id (scan_all true scs r).evicted ≡ one_of id r.evicted)
  unfolding scan_all
  scan_all-Absent id [] r a = (refl, refl)
  scan_all-Absent id (sc ∷ scs) r a =
      let here = scan_one-other id sc r a.0 in
      let rest = scan_all-Absent id scs (scan_one true sc r) a.1 in
      (rest.0 ∙ here.0, rest.1 ∙ here.1)

  pub scan_all-Once :
      (id : String) (ratio : ℤ) (scs : List (Scanned D)) (r : Round D)
      → Once id ratio scs
      → let g = govern ratio (Map.lookup id r.states) in
        (Map.lookup id (scan_all true scs r).states ≡ g.0)
        × (one_of id (scan_all true scs r).evicted ≡ (one_of id r.evicted || is_evicts g.1))
  unfolding scan_all
  scan_all-Once id ratio [] r o = absurd o
  scan_all-Once id ratio (sc ∷ scs) r (inl (is, ratio_is, absent)) =
      let rest = scan_all-Absent id scs (scan_one true sc r) absent in
      let same : str_eq sc.id id ≡ true = (eq_iff sc.id id).1 is in
      (
        rest.0
            ∙ scan_one-lookup true id sc r
            ∙ rw same (ap₂ (λ x i. (govern x (Map.lookup i r.states)).0) ratio_is is),
        rest.1
            ∙ scan_one-evicted id sc r
            ∙ rw same (
                ap₂ (λ x i. one_of id r.evicted || is_evicts (govern x (Map.lookup i r.states)).1)
                  ratio_is is),
      )
  scan_all-Once id ratio (sc ∷ scs) r (inr (other, once)) =
      let here = scan_one-other id sc r other in
      let rest = scan_all-Once id ratio scs (scan_one true sc r) once in
      (
        rest.0 ∙ ap (λ o. (govern ratio o).0) here.0,
        rest.1 ∙ ap₂ (λ b o. b || is_evicts (govern ratio o).1) here.1 here.0,
      )

-- ===== src/Overload/Metrics/Funnel.antt =====
-- overload/overload_metrics.go: the check of the funnel, after a run of recordings.
use go_wsc.Base.{
  ℕ, ◌+◌, ◌^◌, ◌<◌, String, ◌≡◌, refl, ◌↔◌, inl, inr, true, List, ◌++◌, arith, eqb_iff, Bool-cases,
  nat_eq, string_eq, pair_eq, length, length-append,
}
use go_wsc.Base.Int.{pos, eqb_ℤ, +ℤ-pos, int64-pos}
use go_wsc.Overload.Admission.{verdict_admit, verdict_delay, verdict_offline}
use go_wsc.Overload.Metrics.{
  OverloadMetrics, zero_metrics, record_admitted, record_realtime, record_offline_fallback,
  record_ephemeral_drop, record_ephemeral_merged, record_unrecoverable, record_admission_verdict,
  funnel_in, funnel_out, check_funnel, delivery_funnel_consistent,
}
use go_wsc.Overload.Metrics.Tally.{zero-Tally}
use go_wsc.Overload.Metrics.Recordings.{
  Recording, admits, delivers, falls_back, loses, drops, merges, judges, record_of, run,
  picks_admits, picks_delivers, picks_falls_back, picks_loses, count_if, hits, hits-le, run-hits,
}

module _ (random : ℕ) (m : OverloadMetrics) where
  admitted_step :
      (e : Recording)
      → (record_of random e m).admitted ≡ count_if random (picks_admits e) m.admitted
  unfolding record_of record_admitted record_realtime record_offline_fallback record_unrecoverable
      record_ephemeral_drop record_ephemeral_merged record_admission_verdict
  admitted_step (admits g) = refl
  admitted_step (delivers g) = refl
  admitted_step (falls_back g) = refl
  admitted_step (loses g) = refl
  admitted_step drops = refl
  admitted_step merges = refl
  admitted_step (judges verdict_admit) = refl
  admitted_step (judges verdict_delay) = refl
  admitted_step (judges verdict_offline) = refl

  realtime_step :
      (e : Recording)
      → (record_of random e m).realtime ≡ count_if random (picks_delivers e) m.realtime
  unfolding record_of record_admitted record_realtime record_offline_fallback record_unrecoverable
      record_ephemeral_drop record_ephemeral_merged record_admission_verdict
  realtime_step (admits g) = refl
  realtime_step (delivers g) = refl
  realtime_step (falls_back g) = refl
  realtime_step (loses g) = refl
  realtime_step drops = refl
  realtime_step merges = refl
  realtime_step (judges verdict_admit) = refl
  realtime_step (judges verdict_delay) = refl
  realtime_step (judges verdict_offline) = refl

  offline_step :
      (e : Recording)
      → (record_of random e m).offline_fallback
        ≡ count_if random (picks_falls_back e) m.offline_fallback
  unfolding record_of record_admitted record_realtime record_offline_fallback record_unrecoverable
      record_ephemeral_drop record_ephemeral_merged record_admission_verdict
  offline_step (admits g) = refl
  offline_step (delivers g) = refl
  offline_step (falls_back g) = refl
  offline_step (loses g) = refl
  offline_step drops = refl
  offline_step merges = refl
  offline_step (judges verdict_admit) = refl
  offline_step (judges verdict_delay) = refl
  offline_step (judges verdict_offline) = refl

  unrecoverable_step :
      (e : Recording)
      → (record_of random e m).unrecoverable ≡ count_if random (picks_loses e) m.unrecoverable
  unfolding record_of record_admitted record_realtime record_offline_fallback record_unrecoverable
      record_ephemeral_drop record_ephemeral_merged record_admission_verdict
  unrecoverable_step (admits g) = refl
  unrecoverable_step (delivers g) = refl
  unrecoverable_step (falls_back g) = refl
  unrecoverable_step (loses g) = refl
  unrecoverable_step drops = refl
  unrecoverable_step merges = refl
  unrecoverable_step (judges verdict_admit) = refl
  unrecoverable_step (judges verdict_delay) = refl
  unrecoverable_step (judges verdict_offline) = refl

-- What comes out of a bucket.
abbrev pub outs : List (ℕ × Recording) → ℕ → ℕ
outs es i = hits picks_delivers i es + hits picks_falls_back i es + hits picks_loses i es

module _ (es : List (ℕ × Recording)) (i : ℕ) (small : length es < 2 ^ 60) (lt : i < 4) where
  -- Whatever cells the random numbers take, what goes into a bucket and what comes out are the numbers
  -- of the recordings.
  pub funnel_in-run : funnel_in i (run es zero_metrics) ≡ pos (hits picks_admits i es)
  unfolding funnel_in
  funnel_in-run =
      run-hits (λ m. m.admitted) picks_admits (λ r e m. admitted_step r m e) es i (omega arith) lt
        zero-Tally

  pub funnel_out-run : funnel_out i (run es zero_metrics) ≡ pos (outs es i)
  unfolding funnel_out
  funnel_out-run =
      rw
        (
          run-hits (λ m. m.realtime) picks_delivers (λ r e m. realtime_step r m e) es i
              (omega arith) lt zero-Tally,
          run-hits (λ m. m.offline_fallback) picks_falls_back (λ r e m. offline_step r m e) es i
              (omega arith) lt zero-Tally,
          run-hits (λ m. m.unrecoverable) picks_loses (λ r e m. unrecoverable_step r m e) es i
              (omega arith) lt zero-Tally,
          +ℤ-pos (hits picks_delivers i es) (hits picks_falls_back i es),
          int64-pos (hits picks_delivers i es + hits picks_falls_back i es) (
              omega (
                arith,
                hits-le picks_delivers i es,
                hits-le picks_falls_back i es,
                hits-le picks_loses i es,
              )),
          +ℤ-pos (hits picks_delivers i es + hits picks_falls_back i es) (hits picks_loses i es),
          int64-pos (hits picks_delivers i es + hits picks_falls_back i es + hits picks_loses i es)
              (omega (
                arith,
                hits-le picks_delivers i es,
                hits-le picks_falls_back i es,
                hits-le picks_loses i es,
              )),
        )
        refl

-- Recordings that let as much out of a bucket as into it.
abbrev pub Balances : List (ℕ × Recording) → ℕ → Type 0
Balances es i = hits picks_admits i es ≡ outs es i

check_funnel-run :
    (name : String) (i : ℕ) (es : List (ℕ × Recording))
    → length es < 2 ^ 60
    → i < 4
    → length (check_funnel name i (run es zero_metrics)) ≡ 0 ↔ Balances es i
unfolding check_funnel
check_funnel-run name i es small lt =
    rw (funnel_in-run es i small lt, funnel_out-run es i small lt)
      (elim (Bool-cases (eqb_ℤ (pos (hits picks_admits i es)) (pos (outs es i)))) [
        | inl same ↦ rw same (λ e. ground (arith, same), λ e. refl)
        | inr other ↦ rw other (λ e. ground (arith, e), λ e. ground (arith, other, e))
      ])

-- After fewer than 2 to the 60th recordings from the zero value, whatever cells the random numbers
-- take, the funnel is consistent exactly when the recordings of standard messages and those of
-- guaranteed messages each let as many out, delivered, handed over or lost, as are admitted.
pub delivery_funnel_consistent-run :
    (es : List (ℕ × Recording))
    → length es < 2 ^ 60
    → (delivery_funnel_consistent (run es zero_metrics)).0 ≡ true ↔ (Balances es 0 × Balances es 2)
unfolding delivery_funnel_consistent
delivery_funnel_consistent-run es small =
    let m = run es zero_metrics in
    let standards = check_funnel-run "standard" 0 es small (omega arith) in
    let guaranteeds = check_funnel-run "guaranteed" 2 es small (omega arith) in
    let both = length-append (check_funnel "standard" 0 m) (check_funnel "guaranteed" 2 m) in
    (
      λ e.
          let none_left =
            (eqb_iff (length (check_funnel "standard" 0 m ++ check_funnel "guaranteed" 2 m)) 0).0
              e in
          (
            standards.0 (omega (arith, both, none_left)),
            guaranteeds.0 (omega (arith, both, none_left)),
          ),
      λ h.
          (eqb_iff (length (check_funnel "standard" 0 m ++ check_funnel "guaranteed" 2 m)) 0).1
            (omega (arith, both, standards.1 h.0, guaranteeds.1 h.1)),
    )

-- ===== src/Overload/Metrics/Recordings.antt =====
-- overload/overload_metrics.go: recordings, and how many of a run the buckets count.
use go_wsc.Base.{
  ℕ, ◌+◌, ◌^◌, ◌≤◌, ◌<◌, ◌≡◌, sym, ap, ◌∙◌, Option, none, some, List, [], ◌∷◌, arith, nat_eq,
  string_eq, pair_eq, length,
}
use go_wsc.Base.Int.{pos}
use mathlib.Core.Path.{subst}
use go_wsc.Models.HubMessage.{DeliveryGuarantee}
use go_wsc.Overload.Admission.{AdmitVerdict}
use go_wsc.Overload.Metrics.{
  total_of, GuaranteeMetricBuckets, bucket, OverloadMetrics, zero_metrics, count_in,
  record_admitted, record_realtime, record_offline_fallback, record_ephemeral_drop,
  record_ephemeral_merged, record_unrecoverable, record_admission_verdict,
}
use go_wsc.Overload.Metrics.Tally.{total_of-Counts, Tally, hit, Tally-eq, count_in-Tally}

-- A recording of the deliveries.
pub data Recording : Type 0 where
  admits delivers falls_back loses : DeliveryGuarantee → Recording
  drops merges : Recording
  judges : AdmitVerdict → Recording

unfoldable pub record_of : ℕ → Recording → OverloadMetrics → OverloadMetrics
record_of random (admits g) m = record_admitted random g m
record_of random (delivers g) m = record_realtime random g m
record_of random (falls_back g) m = record_offline_fallback random g m
record_of random (loses g) m = record_unrecoverable random g m
record_of random drops m = record_ephemeral_drop random m
record_of random merges m = record_ephemeral_merged random m
record_of random (judges v) m = record_admission_verdict v m

-- Recordings one after the other, each with its random number.
unfoldable pub run : List (ℕ × Recording) → OverloadMetrics → OverloadMetrics
unfolding record_of
run [] m = m
run ((random, e) ∷ es) m = run es (record_of random e m)

abbrev pub picks_admits : Recording → Option DeliveryGuarantee
picks_admits (admits g) = some g
picks_admits (delivers g) = none
picks_admits (falls_back g) = none
picks_admits (loses g) = none
picks_admits drops = none
picks_admits merges = none
picks_admits (judges v) = none

abbrev pub picks_delivers : Recording → Option DeliveryGuarantee
picks_delivers (admits g) = none
picks_delivers (delivers g) = some g
picks_delivers (falls_back g) = none
picks_delivers (loses g) = none
picks_delivers drops = none
picks_delivers merges = none
picks_delivers (judges v) = none

abbrev pub picks_falls_back : Recording → Option DeliveryGuarantee
picks_falls_back (admits g) = none
picks_falls_back (delivers g) = none
picks_falls_back (falls_back g) = some g
picks_falls_back (loses g) = none
picks_falls_back drops = none
picks_falls_back merges = none
picks_falls_back (judges v) = none

abbrev pub picks_loses : Recording → Option DeliveryGuarantee
picks_loses (admits g) = none
picks_loses (delivers g) = none
picks_loses (falls_back g) = none
picks_loses (loses g) = some g
picks_loses drops = none
picks_loses merges = none
picks_loses (judges v) = none

abbrev pub hit_if : ℕ → Option DeliveryGuarantee → ℕ
hit_if i none = 0
hit_if i (some g) = hit i g

pub hit_if_le : (i : ℕ) (o : Option DeliveryGuarantee) → hit_if i o ≤ 1
hit_if_le i none = omega arith
hit_if_le i (some g) = ground arith

abbrev pub count_if : ℕ → Option DeliveryGuarantee → GuaranteeMetricBuckets → GuaranteeMetricBuckets
count_if random none b = b
count_if random (some g) b = count_in random g b

count_if-Tally :
    (random : ℕ) (o : Option DeliveryGuarantee) (b : GuaranteeMetricBuckets) (f : ℕ → ℕ)
    → ((i : ℕ) → f i + 1 < 2 ^ 63)
    → Tally b f
    → Tally (count_if random o b) (λ i. f i + hit_if i o)
count_if-Tally random none b f small t = Tally-eq b f (λ i. f i + 0) (λ i. omega arith) t
count_if-Tally random (some g) b f small t = count_in-Tally random g b f small t

-- How many recordings of a run that are picked are in a bucket.
abbrev pub hits : (Recording → Option DeliveryGuarantee) → ℕ → List (ℕ × Recording) → ℕ
hits picks i [] = 0
hits picks i ((random, e) ∷ es) = hit_if i (picks e) + hits picks i es

pub hits-le :
    (picks : Recording → Option DeliveryGuarantee) (i : ℕ) (es : List (ℕ × Recording))
    → hits picks i es ≤ length es
hits-le picks i [] = omega arith
hits-le picks i ((random, e) ∷ es) = omega (arith, hit_if_le i (picks e), hits-le picks i es)

-- A field that counts the recordings that are picked.
module _ (field : OverloadMetrics → GuaranteeMetricBuckets)
    (picks : Recording → Option DeliveryGuarantee)
    (step : (random : ℕ) (e : Recording) (m : OverloadMetrics)
      → field (record_of random e m) ≡ count_if random (picks e) (field m)) where
  pub run-Tally :
      (es : List (ℕ × Recording)) (m : OverloadMetrics) (f : ℕ → ℕ)
      → ((i : ℕ) → f i + length es < 2 ^ 63)
      → Tally (field m) f
      → Tally (field (run es m)) (λ i. f i + hits picks i es)
  unfolding run
  run-Tally [] m f small t = Tally-eq (field m) f (λ i. f i + 0) (λ i. omega arith) t
  run-Tally ((random, e) ∷ es) m f small t =
      Tally-eq (field (run es (record_of random e m)))
        (λ i. f i + hit_if i (picks e) + hits picks i es)
        (λ i. f i + (hit_if i (picks e) + hits picks i es)) (λ i. omega arith)
        (run-Tally es (record_of random e m) (λ i. f i + hit_if i (picks e))
          (λ i. omega (arith, small i, hit_if_le i (picks e)))
          (subst (λ b. Tally b (λ i. f i + hit_if i (picks e))) (sym (step random e m))
            (count_if-Tally random (picks e) (field m) f (λ i. omega (arith, small i)) t)))

  pub run-hits :
      (es : List (ℕ × Recording)) (i : ℕ)
      → length es < 2 ^ 63
      → i < 4
      → Tally (field zero_metrics) (λ j. 0)
      → total_of (bucket i (field (run es zero_metrics))) ≡ pos (hits picks i es)
  run-hits es i small lt zero_tally =
      total_of-Counts (bucket i (field (run es zero_metrics))) (0 + hits picks i es)
        ((run-Tally es zero_metrics (λ j. 0) (λ j. omega arith) zero_tally).1 i lt)
        (omega (arith, hits-le picks i es))
      ∙ ap pos (omega arith)

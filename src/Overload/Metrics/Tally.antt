-- ===== src/Overload/Metrics/Tally.antt =====
-- overload/overload_metrics.go: what the counters have counted after a run of recordings.
use go_wsc.Base.{
  ℕ, zero, suc, ◌+◌, ◌%◌, ◌^◌, ◌≤◌, ◌<◌, ◌≡◌, refl, ap, ◌∙◌, inl, inr, List, [], ◌∷◌, arith, eqb,
  if◌then◌else◌, eqb_iff, Bool-cases, nat_eq, string_eq, pair_eq, length, length-set, get_or,
  get_or-replicate, get_or-set_self, get_or-set_ne, All, All-get_or, All-set, All-replicate,
  total-set, total,
}
use go_wsc.Base.Int.{ℤ, pos, pos_part, neg_part, ◌+ℤ◌, int64, +ℤ-pos, int64-pos}
use mathlib.Core.Path.{subst}
use go_wsc.Models.HubMessage.{DeliveryGuarantee}
use go_wsc.Overload.Metrics.{
  hot_stripes, HotCounter, zero_counter, add, sum_cells, total_of, GuaranteeMetricBuckets,
  zero_buckets, bucket, bucket_index, count_in,
}

abbrev pub IsCount : ℤ → Type 0
IsCount v = neg_part v ≡ 0

-- A hot counter whose cells have counted some number together.
abbrev pub Counts : HotCounter → ℕ → Type 0
Counts c n = (length c ≡ hot_stripes) × All IsCount c × (total pos_part c ≡ n)

count_pos : (v : ℤ) → IsCount v → v ≡ pos (pos_part v)
count_pos v h = ground arith

sum_cells-total :
    (vs : List ℤ) (n : ℕ)
    → All IsCount vs
    → n + total pos_part vs < 2 ^ 63
    → sum_cells (pos n) vs ≡ pos (n + total pos_part vs)
unfolding sum_cells
sum_cells-total [] n a b = ap pos (omega arith)
sum_cells-total (v ∷ vs) n a b =
    let here : int64 (pos n +ℤ v) ≡ pos (n + pos_part v) =
      ap (λ x. int64 (pos n +ℤ x)) (count_pos v a.0)
      ∙ ap int64 (+ℤ-pos n (pos_part v))
      ∙ int64-pos (n + pos_part v) (omega arith) in
    ap (λ x. sum_cells x vs) here
    ∙ sum_cells-total vs (n + pos_part v) a.1 (omega arith)
    ∙ ap pos (omega arith)

pub total_of-Counts : (c : HotCounter) (n : ℕ) → Counts c n → n < 2 ^ 63 → total_of c ≡ pos n
unfolding total_of
total_of-Counts c n h b = sum_cells-total c 0 h.1 (omega (arith, h.2)) ∙ ap pos (omega (arith, h.2))

get_or-le : (c : List ℤ) (i : ℕ) → pos_part (get_or c i (pos 0)) ≤ total pos_part c
get_or-le [] i = omega arith
get_or-le (v ∷ vs) zero = omega arith
get_or-le (v ∷ vs) (suc i) = omega (arith, get_or-le vs i)

-- A write counts one more, whatever cell it takes.
add-Counts :
    (random : ℕ) (c : HotCounter) (n : ℕ)
    → Counts c n
    → n + 1 < 2 ^ 63
    → Counts (add random (pos 1) c) (n + 1)
unfolding add
add-Counts random c n h b =
    let i : ℕ = random % hot_stripes in
    let old : ℤ = get_or c i (pos 0) in
    let is_count : IsCount old = All-get_or IsCount c i (pos 0) refl h.1 in
    let new : int64 (old +ℤ pos 1) ≡ pos (pos_part old + 1) =
      ap (λ x. int64 (x +ℤ pos 1)) (count_pos old is_count)
      ∙ ap int64 (+ℤ-pos (pos_part old) 1)
      ∙ int64-pos (pos_part old + 1) (omega (arith, get_or-le c i, h.2)) in
    rw new (
      length-set c i (pos (pos_part old + 1)) ∙ h.0,
      All-set IsCount c i (pos (pos_part old + 1)) refl h.1,
      omega (
        arith,
        total-set pos_part c i (pos (pos_part old + 1)) (pos 0) (omega (arith, h.0)),
        h.2,
      ),
    )

-- What each bucket has counted.
abbrev pub Tally : GuaranteeMetricBuckets → (ℕ → ℕ) → Type 0
Tally b f = (length b ≡ 4) × ((i : ℕ) → i < 4 → Counts (bucket i b) (f i))

abbrev pub hit : ℕ → DeliveryGuarantee → ℕ
hit i g = if eqb (bucket_index g) i then 1 else 0

pub Tally-eq :
    (b : GuaranteeMetricBuckets) (f g : ℕ → ℕ) → ((i : ℕ) → f i ≡ g i) → Tally b f → Tally b g
Tally-eq b f g e t = (t.0, λ i lt. subst (Counts (bucket i b)) (e i) (t.1 i lt))

bucket_index_lt : (g : DeliveryGuarantee) → bucket_index g < 4
unfolding bucket_index
bucket_index_lt g = ground arith

pub count_in-Tally :
    (random : ℕ) (g : DeliveryGuarantee) (b : GuaranteeMetricBuckets) (f : ℕ → ℕ)
    → ((i : ℕ) → f i + 1 < 2 ^ 63)
    → Tally b f
    → Tally (count_in random g b) (λ i. f i + hit i g)
unfolding count_in
count_in-Tally random g b f small t = (
  length-set b (bucket_index g) _ ∙ t.0,
  λ i lt. elim (Bool-cases (eqb (bucket_index g) i)) [
    | inl same ↦
        let here : bucket_index g ≡ i = (eqb_iff (bucket_index g) i).0 same in
        rw same (
          rw here (
            rw
              (get_or-set_self b i (add random (pos 1) (bucket i b)) zero_counter
                (omega (arith, t.0)))
              (add-Counts random (bucket i b) (f i) (t.1 i lt) (small i))))
    | inr other ↦
        rw
          (
            other,
            get_or-set_ne b (bucket_index g) i (add random (pos 1) (bucket (bucket_index g) b))
                zero_counter (λ e. ground (arith, other, (eqb_iff (bucket_index g) i).1 e)),
          )
          (subst (Counts (bucket i b)) (omega arith) (t.1 i lt))
  ],
)

pub zero-Tally : Tally zero_buckets (λ i. 0)
zero-Tally = (
  refl,
  λ i lt.
      rw (get_or-replicate 4 i zero_counter)
        (refl, All-replicate IsCount hot_stripes (pos 0) refl, refl),
)

-- ===== src/Models/MessagePriority/Counts.antt =====
-- models/message_type.go: the statistics and the selections over the list of all message types.
use go_wsc.Base.{
  ℕ, ◌+◌, ◌≡◌, ◌⊎◌, Bool, List, [], ◌∷◌, arith, if◌then◌else◌, nat_eq, string_eq, length,
}
use go_wsc.Models.MessageType.{MessageType}
use go_wsc.Models.MessagePriority.{
  MessagePriority, low, normal, high, urgent, critical, PriorityStats, count_priority, select,
  priority_stats_from, get_default_priority,
}
use go_wsc.Base.Int.{eqb_ℤ}

abbrev IsDeclared : MessagePriority → Type 0
IsDeclared p = (p ≡ critical) ⊎ (p ≡ urgent) ⊎ (p ≡ high) ⊎ (p ≡ normal) ⊎ (p ≡ low)

first_of_five :
    (a b c d e : Bool)
    → IsDeclared (
        if a
        then critical
        else (if b
            then urgent
            else (if c then high else (if d then normal else (if e then low else normal)))))
first_of_five a b c d e = ground arith

get_default_priority-IsDeclared : (t : MessageType) → IsDeclared (get_default_priority t)
unfolding get_default_priority
get_default_priority-IsDeclared t = first_of_five _ _ _ _ _

abbrev pub parts : PriorityStats → ℕ
parts s = s.critical_count + s.urgent_count + s.high_count + s.normal_count + s.low_count

count_priority-parts :
    (p : MessagePriority) (s : PriorityStats)
    → IsDeclared p
    → (parts (count_priority p s) ≡ parts s + 1)
      × ((count_priority p s).total_count ≡ s.total_count + 1)
unfolding count_priority
count_priority-parts p s h = ground arith

-- Over any list of types, the five counters together grow by the length of the list, and so does
-- the total.
pub priority_stats_from-parts :
    (s : PriorityStats) (ts : List MessageType)
    → (parts (priority_stats_from s ts) ≡ parts s + length ts)
      × ((priority_stats_from s ts).total_count ≡ s.total_count + length ts)
unfolding priority_stats_from
priority_stats_from-parts s [] = omega arith
priority_stats_from-parts s (t ∷ ts) =
    let p = get_default_priority t in
    omega (
      arith,
      count_priority-parts p s (get_default_priority-IsDeclared t),
      priority_stats_from-parts (count_priority p s) ts,
    )

-- The number of types selected by a priority is what the statistics count for it.
select-critical_count :
    (s : PriorityStats) (ts : List MessageType)
    → (priority_stats_from s ts).critical_count
      ≡ s.critical_count + length (select (λ t. eqb_ℤ (get_default_priority t) critical) ts)
unfolding priority_stats_from select count_priority
select-critical_count s [] = omega arith
select-critical_count s (t ∷ ts) =
    ground (arith, select-critical_count (count_priority (get_default_priority t) s) ts)

-- ===== src/Models/HubMessage/Resolve.antt =====
-- models/delivery_guarantee.go: the order in which ResolveGuarantee decides.
use go_wsc.Base.{
  Bool, true, false, ◌||◌, ◌≡◌, ◌⊎◌, refl, Option, none, some, if◌then◌else◌, ◌∷◌, Eq, [], every,
  str_eq, string_eq, arith,
}
use go_wsc.Base.Int.{leb_ℤ, pos}
use go_wsc.Base.Map
use go_wsc.Base.Map.{Map}
use go_wsc.Models.MessageType.{MessageType}
use go_wsc.Models.Classification.{MessageClassification, get_final_priority}
use go_wsc.Models.Enums.Priority
use go_wsc.Models.HubMessage.{
  HubMessage, DeliveryGuarantee, unset, standard, guaranteed, DataValue, classification,
  guarantee_for_type, derived_guarantee, resolve_guarantee, or_derived, data_key_classification,
  guarantee_type_defaults,
}

abbrev pub is_set : DeliveryGuarantee → Bool
is_set unset = false
is_set _ = true

-- The values of a table that is searched satisfy what all of its values do.
lookup-every {ℓ κ} :
    {K : Type ℓ} {V : Type κ} ⦃e : Eq K⦄ (p : V → Bool) (k : K) (m : Map K V) (v : V)
    → every (λ x. p x.1) m ≡ true
    → Map.lookup k m ≡ some v
    → p v ≡ true
unfolding Map.lookup
lookup-every p k [] v h l = cc
lookup-every p k ((j, w) ∷ m) v h l = ground (arith, lookup-every p k m v)

pub guarantee_for_type-is_set :
    (t : MessageType) {g : DeliveryGuarantee} → guarantee_for_type t ≡ some g → is_set g ≡ true
unfolding guarantee_for_type
guarantee_for_type-is_set t {g} h = lookup-every is_set t guarantee_type_defaults g refl h

derived_guarantee_cases :
    (m : HubMessage) → (derived_guarantee m ≡ guaranteed) ⊎ (derived_guarantee m ≡ standard)
unfolding derived_guarantee
derived_guarantee_cases m = ground arith

or_derived-is_set :
    (m : HubMessage) (o : Option DeliveryGuarantee)
    → guarantee_for_type m.message_type ≡ o
    → is_set (or_derived m o) ≡ true
or_derived-is_set m (some g) h = guarantee_for_type-is_set m.message_type h
or_derived-is_set m none h = ground (arith, derived_guarantee_cases m)

-- Whatever the message, the guarantee that is resolved is never the unset one.
pub resolve_guarantee-is_set : (m : HubMessage) → is_set (resolve_guarantee m) ≡ true
unfolding resolve_guarantee
resolve_guarantee-is_set m =
    ground (arith, or_derived-is_set m (guarantee_for_type m.message_type) refl)

-- A level that the sender wrote is kept.
pub resolve_guarantee-explicit :
    (m : HubMessage) → is_set m.guarantee ≡ true → resolve_guarantee m ≡ m.guarantee
unfolding resolve_guarantee
resolve_guarantee-explicit m h = ground arith

-- With no level written, the level of the type is taken.
pub resolve_guarantee-typed :
    (m : HubMessage) (g : DeliveryGuarantee)
    → m.guarantee ≡ unset
    → guarantee_for_type m.message_type ≡ some g
    → resolve_guarantee m ≡ g
unfolding resolve_guarantee
resolve_guarantee-typed m g u h = rw u (rw h)

-- The entry of `Data` that holds the classification.
abbrev pub classification_entry : HubMessage → Option DataValue
classification_entry m = elim m.data_map [
  | none ↦ none
  | some d ↦ Map.lookup data_key_classification d
]

-- With no level written and none for the type, a message with a classification is guaranteed if its
-- priority is critical or its score is at least 90, and standard otherwise.
pub resolve_guarantee-derived :
    (m : HubMessage) (c : MessageClassification)
    → m.guarantee ≡ unset
    → guarantee_for_type m.message_type ≡ none
    → classification_entry m ≡ some (classification (some c))
    → resolve_guarantee m ≡ (
        if leb_ℤ (pos 90) (get_final_priority c) || str_eq m.priority Priority.critical
        then guaranteed
        else standard)
unfolding resolve_guarantee derived_guarantee
resolve_guarantee-derived m c u h e = rw u (rw h (rw e (ground arith)))

-- ===== src/Overload/Aggregator/Frames.antt =====
-- overload/aggregator.go: the frame of a batch, described without the loop that builds it.
use go_wsc.Base.{◌≡◌, refl, ap, List, [], ◌∷◌, ◌++◌, nat_eq, string_eq, pair_eq}
use go_wsc.Overload.Aggregator.{Payload, join_rest, join_payloads, join_json_payloads}

-- A payload put between any two others.
abbrev pub between : Payload → List Payload → List Payload
between s [] = []
between s (p ∷ []) = p ∷ []
between s (p ∷ q ∷ ps) = p ∷ s ∷ between s (q ∷ ps)

abbrev pub concat : List Payload → Payload
concat [] = []
concat (p ∷ ps) = p ++ concat ps

-- The JSON array of values that are given as JSON.
abbrev pub json_array : List Payload → Payload
json_array ps = b'[' ∷ (concat (between (b',' ∷ []) ps) ++ b']' ∷ [])

join_rest-between :
    (p : Payload) (ps : List Payload) → p ++ join_rest ps ≡ concat (between (b',' ∷ []) (p ∷ ps))
unfolding join_rest
join_rest-between p [] = refl
join_rest-between p (q ∷ ps) = ap (λ r. p ++ b',' ∷ r) (join_rest-between q ps)

pub join_json_payloads-array : (ps : List Payload) → join_json_payloads ps ≡ json_array ps
unfolding join_json_payloads join_payloads
join_json_payloads-array [] = refl
join_json_payloads-array (p ∷ ps) = ap (λ r. b'[' ∷ (r ++ b']' ∷ [])) (join_rest-between p ps)

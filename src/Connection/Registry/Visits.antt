-- ===== src/Connection/Registry/Visits.antt =====
-- connection/sharded_registry.go: the clients that a loop with a filter, in parallel or not, reaches.
use go_wsc.Base.{
  ℕ, String, ◌≡◌, Bool, ◌&&◌, ◌||◌, List, [], ◌∷◌, ◌++◌, str_eq, if◌then◌else◌, nat_eq, string_eq,
  pair_eq, total,
}
use go_wsc.Connection.Registry.{Client, Registry}
use go_wsc.Connection.Registry.Queries.{client_matches_envelope}

-- The client is of the app, and of the namespace, if one is named.
abbrev pub is_addressed : String → String → Client → Bool
is_addressed app_id namespace c =
    str_eq c.app_id app_id && (str_eq namespace "" || str_eq c.namespace namespace)

-- What a client counts for, if it is addressed.
abbrev pub share : String → String → (String × Client → ℕ) → String × Client → ℕ
share app_id namespace f e = if is_addressed app_id namespace e.1 then f e else 0

-- A callback that notes the clients that it is called on.
abbrev pub note : List (String × Client) → String → Client → List (String × Client)
note seen id c = seen ++ (id, c) ∷ []

-- RangeParallel reaches every client once, in some order.
abbrev pub IsArrangement : (List (String × Client) → List (String × Client)) → Type 0
IsArrangement arrange =
    (f : String × Client → ℕ) (es : List (String × Client)) → total f (arrange es) ≡ total f es

module _ (app_id namespace : String) (group_ids : List String) (f : String × Client → ℕ) where
  abbrev note_matching : List (String × Client) → String → Client → List (String × Client)
  note_matching seen id c =
      if client_matches_envelope c app_id namespace group_ids then note seen id c else seen

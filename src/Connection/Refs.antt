-- ===== src/Connection/Refs.antt =====
-- connection/sharded_registry.go: the reverse indexes, from a key to the users with connections under it.
-- Of a user the index keeps how many connections there are; Go's int is a number here.
pub mod Counts
use go_wsc.Base.{
  ℕ, suc, ◌-◌, String, Option, none, some, List, ◌∷◌, leb, if◌then◌else◌, nat_eq, string_eq,
  pair_eq, [],
}
use go_wsc.Base.Map
use go_wsc.Base.Map.{Map}
use go_wsc.Base.Map.{weight}
use go_wsc.Base.Nested.{Nested, find, put, settle}

abbrev pub RefIndex : Type 0
RefIndex = Nested ℕ

-- A missing entry reads as 0.
abbrev pub refs : String → String → RefIndex → ℕ
refs key user idx = weight (λ n. n) (find key user idx)

unfoldable pub acquire : String → String → RefIndex → RefIndex
unfolding put
acquire key user idx = put key user (suc (refs key user idx)) idx

-- What is left of the users of a key.
pub lower : String → Map String ℕ → Map String ℕ
unfolding Map.lookup Map.insert Map.erase
lower user users =
    let n = weight (λ n. n) (Map.lookup user users) in
    if leb n 1 then Map.erase user users else Map.insert user (n - 1) users

pub release_from : String → String → RefIndex → Option (Map String ℕ) → RefIndex
unfolding settle lower
release_from key user idx none = idx
release_from key user idx (some users) = settle key (lower user users) idx

unfoldable pub release : String → String → RefIndex → RefIndex
unfolding release_from
release key user idx = release_from key user idx (Map.lookup key idx)

unfoldable pub acquire_all : List String → String → RefIndex → RefIndex
unfolding acquire
acquire_all [] user idx = idx
acquire_all (key ∷ keys) user idx = acquire_all keys user (acquire key user idx)

unfoldable pub release_all : List String → String → RefIndex → RefIndex
unfolding release
release_all [] user idx = idx
release_all (key ∷ keys) user idx = release_all keys user (release key user idx)

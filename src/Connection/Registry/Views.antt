-- ===== src/Connection/Registry/Views.antt =====
-- connection/sharded_registry.go: how a counter or an index of the registry follows the clients that are
-- registered.
use go_wsc.Base.{
  ℕ, ◌+◌, String, ◌≡◌, Bool, true, false, Option, none, some, List, arith, if◌then◌else◌, nat_eq,
  string_eq, pair_eq,
}
use go_wsc.Base.Int.{ℤ, pos, int64}
use go_wsc.Base.Map
use go_wsc.Base.Map.{Map}
use go_wsc.Base.Nested.{Nested, IsNested, find}
use go_wsc.Base.Nested.Sums.{sum_of}
use go_wsc.Connection.Refs.{RefIndex, refs}
use go_wsc.Connection.Refs.Counts.{IsRefs, occurrences}
use go_wsc.Connection.Registry.{Client, add_one, add_minus_one}

add_one-int64 : (n : ℕ) → add_one (int64 (pos n)) ≡ int64 (pos (n + 1))
unfolding add_one
add_one-int64 n = ground arith

add_minus_one-int64 : (n : ℕ) → add_minus_one (int64 (pos (n + 1))) ≡ int64 (pos n)
unfolding add_minus_one
add_minus_one-int64 n = ground arith

-- A counter holds a number, modulo 2 to the 64th.
abbrev pub Holds : ℤ → ℕ → Type 0
Holds count n = count ≡ int64 (pos n)

pub Holds-more :
    (b : Bool) (count : ℤ) (m n : ℕ)
    → n ≡ (if b then m + 1 else m)
    → Holds count m
    → Holds (if b then add_one count else count) n
Holds-more true count m n e h = rw (h, e) (add_one-int64 m)
Holds-more false count m n e h = rw e h

pub Holds-less :
    (b : Bool) (count : ℤ) (m n : ℕ)
    → m ≡ (if b then n + 1 else n)
    → Holds count m
    → Holds (if b then add_minus_one count else count) n
Holds-less true count m n e h = rw (h, e) (add_minus_one-int64 n)
Holds-less false count m n e h = rw (← e) h

-- The clients of a kind.
abbrev pub select : (Client → Bool) → Option Client → Option Client
select p none = none
select p (some c) = if p c then some c else none

abbrev pub Selects : (Client → Bool) → Nested Client → Nested Client → Type 0
Selects p m kept =
    IsNested kept × ((user id : String) → find user id kept ≡ select p (find user id m))

-- The index counts the connections of a user under each key.
abbrev pub Files : (Client → List String) → Nested Client → RefIndex → Type 0
Files keys m idx =
    IsRefs idx
    × ((key user : String) → refs key user idx ≡ sum_of (λ c. occurrences key (keys c)) user m)

-- The user of each id.
abbrev pub Owns : Nested Client → Map String String → Type 0
Owns m owners =
    ((user id : String) (c : Client) → find user id m ≡ some c → Map.lookup id owners ≡ some user)
    × ((user id : String)
        → Map.lookup id owners ≡ some user
        → (c : Client) × (find user id m ≡ some c))

-- Each client stands under its own user and id.
abbrev pub Places : Nested Client → Type 0
Places m =
    (user id : String) (c : Client) → find user id m ≡ some c → (c.user_id ≡ user) × (c.id ≡ id)

-- A client that is replaced agrees with the new one in what is read of it.
abbrev pub Agrees {ℓ} : {A : Type ℓ} → Client → Nested Client → (Client → A) → Type ℓ
Agrees c m f = (old : Client) → find c.user_id c.id m ≡ some old → f old ≡ f c

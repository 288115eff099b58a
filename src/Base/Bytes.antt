-- ===== src/Base/Bytes.antt =====
-- Go's strings as bytes (UTF-8), and the FNV-1a hash of overload/coalescer.go and broker/dedup.go.
use Prim.Native.Char.{code}
use Prim.Native.Nat.{ℕ, ◌+◌, ◌*◌, ◌/◌, ◌%◌, ◌^◌, bit_xor}
use Prim.Native.String.{String}
use mathlib.Core.List.{List, [], ◌∷◌, ◌++◌}
use go_wsc.Base.Tests.{ltb, if◌then◌else◌}

abbrev utf8 : ℕ → List ℕ
utf8 c =
    if ltb c 128
    then c ∷ []
    else if ltb c 2048
    then (192 + c / 64) ∷ (128 + c % 64) ∷ []
    else if ltb c 65536
    then (224 + c / 4096) ∷ (128 + c / 64 % 64) ∷ (128 + c % 64) ∷ []
    else (240 + c / 262144) ∷ (128 + c / 4096 % 64) ∷ (128 + c / 64 % 64) ∷ (128 + c % 64) ∷ []

unfoldable pub bytes : String → List ℕ
bytes String.[] = []
bytes (String.◌∷◌ c s) = utf8 (code c) ++ bytes s

abbrev pub fnv_offset_32 : ℕ
fnv_offset_32 = 2166136261

abbrev pub fnv_prime_32 : ℕ
fnv_prime_32 = 16777619

-- One round for each byte; the product is a uint32.
unfoldable pub fnv_bytes : ℕ → List ℕ → ℕ
fnv_bytes h [] = h
fnv_bytes h (b ∷ bs) = fnv_bytes (bit_xor h b * fnv_prime_32 % 2 ^ 32) bs

unfoldable pub fnv_string : ℕ → String → ℕ
unfolding bytes fnv_bytes
fnv_string h s = fnv_bytes h (bytes s)

-- ===== src/HashMap/Hash.antt =====
-- The hash functions of src/hash_map.c, on u64 values.
use nibble.Prelude.{ℕ, ◌+◌, ◌*◌, ◌/◌, ◌%◌, ◌^◌, bit_xor, List, [], ◌∷◌, ltb, if◌then◌else◌}

-- hash_uint64
unfoldable pub hash_uint64 : ℕ → ℕ
hash_uint64 h =
    let a = bit_xor h (h / 2 ^ 27) * 0x3C79AC492BA7B653 % 2 ^ 64 in
    let b = bit_xor a (a / 2 ^ 33) * 0x1C69B3F74AC4AE35 % 2 ^ 64 in bit_xor b (b / 2 ^ 27)

-- hash_mix_uint64
unfoldable pub hash_mix_uint64 : ℕ → ℕ → ℕ
unfolding hash_uint64
hash_mix_uint64 a b = hash_uint64 (bit_xor a b)

-- A char, which is signed, as a u64
abbrev char_to_u64 : ℕ → ℕ
char_to_u64 c = if ltb c 128 then c else c + 0xFFFFFFFFFFFFFF00

-- hash_bytes
unfoldable pub hash_bytes : List ℕ → ℕ → ℕ
hash_bytes [] hash = hash
hash_bytes (b ∷ bs) hash =
    hash_bytes bs (bit_xor hash (char_to_u64 b) * 0x00000100000001b3 % 2 ^ 64)

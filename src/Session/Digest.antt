-- ===== src/Session/Digest.antt =====
-- crates/mini-agent-protocol/src/lib.rs, `stable_digest`: the 64-bit FNV-1a hash of a byte list, in
-- sixteen hexadecimal digits. The digests of a model input (session.rs) are this of its JSON.
use mini_agent_harness.Prelude.{
  ℕ, zero, suc, ◌+◌, ◌*◌, ◌/◌, ◌%◌, ◌^◌, Text, List, [], ◌∷◌, ◌++◌, codes, ltb, if◌then◌else◌,
}

-- the exclusive or of the lowest `n` bits
xor_bits : ℕ → ℕ → ℕ → ℕ
xor_bits zero a b = 0
xor_bits (suc n) a b = (a % 2 + b % 2) % 2 + 2 * xor_bits n (a / 2) (b / 2)

-- `hash ^= u64::from(*byte)`, which changes the lowest eight bits
unfoldable pub xor_byte : ℕ → ℕ → ℕ
unfolding xor_bits
xor_byte hash byte = hash / 256 * 256 + xor_bits 8 hash byte

unfoldable pub hash_bytes : List ℕ → ℕ → ℕ
hash_bytes [] hash = hash
hash_bytes (byte ∷ bytes) hash = hash_bytes bytes (xor_byte hash byte * 1099511628211 % 2 ^ 64)

hex_digit : ℕ → ℕ
hex_digit n = if ltb n 10 then 48 + n else 87 + n

-- `{hash:016x}`
unfoldable pub hex_digits : ℕ → ℕ → Text
unfolding hex_digit
hex_digits zero n = []
hex_digits (suc digits) n = hex_digits digits (n / 16) ++ hex_digit (n % 16) ∷ []

unfoldable pub stable_digest : List ℕ → Text
stable_digest bytes = codes "fnv1a64-" ++ hex_digits 16 (hash_bytes bytes 14695981039346656037)

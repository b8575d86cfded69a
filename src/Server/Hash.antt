-- ===== src/Server/Hash.antt =====
-- gearmand_con.cc and function.cc: the hash of job handles and unique ids, and that of function
-- names. An `int32_t` is its bit pattern below 2^32: sums and left shifts wrap, `>>` copies the sign.
use Prim.Native.Nat.{bit_xor}
use gearmand.Prelude.{ℕ, ◌+◌, ◌-◌, ◌*◌, ◌/◌, ◌%◌, ◌^◌, [], ◌∷◌, ltb, ◌==◌, if◌then◌else◌}
use gearmand.Protocol.Packet.{Bytes}

abbrev add32 : ℕ → ℕ → ℕ
add32 a b = (a + b) % 2 ^ 32

abbrev shl32 : ℕ → ℕ → ℕ
shl32 a k = a * 2 ^ k % 2 ^ 32

abbrev sar32 : ℕ → ℕ → ℕ
sar32 a k = if ltb a (2 ^ 31) then a / 2 ^ k else a / 2 ^ k + (2 ^ 32 - 2 ^ (32 - k))

-- A `char` is signed.
abbrev char32 : ℕ → ℕ
char32 c = if ltb c 128 then c else c + (2 ^ 32 - 256)

hash_round : ℕ → ℕ → ℕ
hash_round value c =
    let v = add32 value (char32 c) in let w = add32 v (shl32 v 10) in bit_xor w (sar32 w 6)

hash_finish : ℕ → ℕ
hash_finish value =
    let v = add32 value (shl32 value 3) in
    let w = bit_xor v (sar32 v 11) in let x = add32 w (shl32 w 15) in if x == 0 then 1 else x

hash_loop : ℕ → Bytes → ℕ
hash_loop value [] = value
hash_loop value (c ∷ cs) = hash_loop (hash_round value c) cs

-- `_server_job_hash`
unfoldable pub server_job_hash : Bytes → ℕ
unfolding hash_round hash_finish hash_loop
server_job_hash key = hash_finish (hash_loop 0 key)

-- `_server_function_hash`, the same steps.
unfoldable pub server_function_hash : Bytes → ℕ
unfolding hash_round hash_finish hash_loop
server_function_hash name = hash_finish (hash_loop 0 name)

abbrev pub default_hash_size : ℕ
default_hash_size = 991

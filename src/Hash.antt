-- ===== src/Hash.antt =====
-- ynetserver.h: `hash_fmix32`; ynetserver.cpp and main.cpp: `stringToHash`.
use Prim.Native.Nat.{bit_xor}
use ynetserver_enet.Base.{ℕ, ◌+◌, ◌*◌, ◌/◌, ◌%◌, ◌^◌, [], ◌∷◌, Bytes, ◌==◌, if◌then◌else◌}

-- `h ^= h >> k`
abbrev shift_xor : ℕ → ℕ → ℕ
shift_xor h k = bit_xor h (h / 2 ^ k)

unfoldable pub hash_fmix32 : ℕ → ℕ
hash_fmix32 h =
    let h₁ = shift_xor h 16 in
    let h₂ = h₁ * 0x85ebca6b % 2 ^ 32 in
    let h₃ = shift_xor h₂ 13 in let h₄ = h₃ * 0xc2b2ae35 % 2 ^ 32 in shift_xor h₄ 16

-- The loop ends at the first NUL, or at the one behind the string.
unfoldable pub djb2 : ℕ → Bytes → ℕ
djb2 h [] = h
djb2 h (c ∷ s) =
    let rest = djb2 ((h * 32 % 2 ^ 32 + h + c) % 2 ^ 32) s in if c == 0 then h else rest

-- `& 0x7FFFFFFF` keeps the low 31 bits.
unfoldable pub string_to_hash : Bytes → ℕ
unfolding djb2 hash_fmix32
string_to_hash s = hash_fmix32 (djb2 5381 s) % 2 ^ 31

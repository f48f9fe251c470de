-- ===== src/Cpu/Signed.antt =====
-- Signed readings of words: Go's s8, s16, s32 and int64, on two's complement words as numbers.
use casio_cg.Base.{ℕ, ◌+◌, ◌-◌, ◌/◌, ◌%◌, ◌^◌, Bool, ltb, if◌then◌else◌, sub32}

-- `uint32(s8(x))` and `uint32(s16(x))`
unfoldable pub sext8 : ℕ → ℕ
sext8 x = let b = x % 2 ^ 8 in if ltb b (2 ^ 7) then b else b + (2 ^ 32 - 2 ^ 8)

unfoldable pub sext16 : ℕ → ℕ
sext16 x = let h = x % 2 ^ 16 in if ltb h (2 ^ 15) then h else h + (2 ^ 32 - 2 ^ 16)

-- `uint64(int64(s32(x)))` of a word.
unfoldable pub sext64 : ℕ → ℕ
sext64 x = if ltb x (2 ^ 31) then x else x + (2 ^ 64 - 2 ^ 32)

-- The place of a word in the signed order: its signed value plus 2^31, or plus 2^63.
unfoldable pub bias : ℕ → ℕ
bias x = (x + 2 ^ 31) % 2 ^ 32

unfoldable pub bias64 : ℕ → ℕ
bias64 x = (x + 2 ^ 63) % 2 ^ 64

-- `s32(a) < s32(b)`
unfoldable pub slt : ℕ → ℕ → Bool
unfolding bias
slt a b = ltb (bias a) (bias b)

-- `uint32(s32(x) >> k)` for k below 32.
unfoldable pub asr : ℕ → ℕ → ℕ
asr x k = if ltb x (2 ^ 31) then x / 2 ^ k else x / 2 ^ k + (2 ^ 32 - 2 ^ (32 - k))

-- `-x` and `^x` of a word.
unfoldable pub neg32 : ℕ → ℕ
neg32 x = sub32 0 x

unfoldable pub not32 : ℕ → ℕ
not32 x = 2 ^ 32 - 1 - x

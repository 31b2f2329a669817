-- ===== src/Field.antt =====
-- CWProtocol.h: the macros `CWSetField32` and `CWGetField32`. Bit 0 of a field position is the
-- most significant bit of the 32-bit word.
use sicapwap.Prelude.{ℕ, ◌-◌, ◌*◌, ◌/◌, ◌%◌, ◌^◌, bit_or}

-- `src |= ((~(0xFFFFFFFF << len)) & val) << (32 - start - len)`; the mask keeps `val % 2 ^ len`.
unfoldable pub set_field32 : ℕ → ℕ → ℕ → ℕ → ℕ
set_field32 src start len val = bit_or src (val % 2 ^ len * 2 ^ (32 - start - len))

-- `(~(0xFFFFFFFF << len)) & (src >> (32 - start - len))`.
unfoldable pub get_field32 : ℕ → ℕ → ℕ → ℕ
get_field32 src start len = src / 2 ^ (32 - start - len) % 2 ^ len

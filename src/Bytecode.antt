-- ===== src/Bytecode.antt =====
-- eta/core/src/eta/runtime/vm/bytecode.h: function indices among the constants of a function, and
-- their relocation.
pub mod FuncIndex
mod Tests
use eta.Prelude.{
  ℕ, suc, ◌+◌, ◌-◌, ◌*◌, ◌/◌, ◌%◌, ◌^◌, bit_and, bit_or, Bool, not, ◌&&◌, ◌==◌, if◌then◌else◌, List,
  map, ℤ, pos, negsuc, ◌+ℤ◌, ltb,
}
use eta.NanBox.{LispVal, shl64, to_i32}

abbrev pub func_index_tag : ℕ
func_index_tag = shl64 1 63

abbrev pub func_index_upper_zero_mask : ℕ
func_index_upper_zero_mask = 0x7fffffff00000000

pub encode_func_index : ℕ → LispVal
encode_func_index index = bit_or func_index_tag index

pub is_func_index : LispVal → Bool
is_func_index v = not (bit_and v func_index_tag == 0) && (bit_and v func_index_upper_zero_mask == 0)

-- `v & ~FUNC_INDEX_TAG`, cast to `uint32_t`
pub decode_func_index : LispVal → ℕ
decode_func_index v = bit_and v (2 ^ 64 - 1 - func_index_tag) % 2 ^ 32

-- `static_cast<uint32_t>` of a signed number
abbrev pub to_u32 : ℤ → ℕ
to_u32 (pos n) = n % 2 ^ 32
to_u32 (negsuc n) = 2 ^ 32 - 1 - n % 2 ^ 32

-- The sum is an `int32_t`, whose overflow the source leaves undefined: the function is about the
-- source only where `old_idx + offset` is in that range.
pub rebase_constant : ℤ → LispVal → LispVal
rebase_constant offset c =
    if is_func_index c
    then encode_func_index (to_u32 (to_i32 (decode_func_index c) +ℤ offset))
    else c

-- The loop of `rebase_func_indices` over the constants.
pub rebase_func_indices : ℤ → List LispVal → List LispVal
rebase_func_indices offset = map (rebase_constant offset)

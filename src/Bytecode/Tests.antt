-- ===== src/Bytecode/Tests.antt =====
-- Runs of the theorems on runtime/vm/bytecode.h at concrete words.
use eta.Prelude.{◌≡◌, ◌↔◌, true, false, ◌^◌, ◌<◌, ◌≤◌, ◌+◌, [], ◌∷◌, pos, ◌-ℤ◌, arith}
use eta.NanBox.{is_boxed}
use eta.Bytecode.{encode_func_index, decode_func_index, is_func_index, rebase_func_indices}
use eta.Bytecode.FuncIndex.{is_func_index_iff, decode-encode_func_index, rebase_func_indices_back}

is_func_index_iff_test :
    (is_func_index 0x8000000000000005 ≡ true)
    ↔ (2 ^ 63 ≤ 0x8000000000000005 × 0x8000000000000005 < 2 ^ 63 + 2 ^ 32)
is_func_index_iff_test = is_func_index_iff 0x8000000000000005 (omega arith)

decode-encode_func_index_example :
    (is_func_index (encode_func_index 77) ≡ true)
    × (decode_func_index (encode_func_index 77) ≡ 77)
    × (is_boxed (encode_func_index 77) ≡ false)
decode-encode_func_index_example = decode-encode_func_index 77 (omega arith)

rebase_func_indices_back_test :
    rebase_func_indices
      (pos 0 -ℤ pos 12)
      (rebase_func_indices (pos 12) (0x8000000000000005 ∷ 9 ∷ []))
    ≡ 0x8000000000000005 ∷ 9 ∷ []
rebase_func_indices_back_test =
    rebase_func_indices_back (pos 12) (0x8000000000000005 ∷ 9 ∷ []) (omega arith) (omega arith)
      (omega arith, (omega arith, tt))

-- ===== src/Serializer/Constants/Codes.antt =====
-- `BytecodeSerializer::ConstTag`: the byte before each constant.
use eta.Prelude.{ℕ}

abbrev pub ct_nil : ℕ
ct_nil = 0

abbrev pub ct_true : ℕ
ct_true = 1

abbrev pub ct_fixnum : ℕ
ct_fixnum = 2

abbrev pub ct_double : ℕ
ct_double = 3

abbrev pub ct_char : ℕ
ct_char = 4

abbrev pub ct_string : ℕ
ct_string = 5

abbrev pub ct_symbol : ℕ
ct_symbol = 6

abbrev pub ct_func_index : ℕ
ct_func_index = 7

abbrev pub ct_heap_cons : ℕ
ct_heap_cons = 8

abbrev pub ct_heap_vec : ℕ
ct_heap_vec = 9

abbrev pub ct_raw_bits : ℕ
ct_raw_bits = 10

abbrev pub ct_heap_nil : ℕ
ct_heap_nil = 11

abbrev pub ct_false : ℕ
ct_false = 12

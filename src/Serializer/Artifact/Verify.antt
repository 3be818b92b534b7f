-- ===== src/Serializer/Artifact/Verify.antt =====
-- eta/core/src/eta/runtime/vm/bytecode_serializer.cpp, `verify_function`: the check of the opcodes
-- and of the indices in their arguments.
use eta.Prelude.{
  ℕ, ◌/◌, ◌%◌, ◌^◌, ◌<◌, ◌≤◌, ltb, leb, ◌==◌, Bool, true, false, ◌&&◌, ◌||◌, not, ◌≡◌, ◌↔◌, ◌⊎◌,
  All, refl, Bool-cases, inl, inr, if◌then◌else◌, List, [], ◌∷◌, length, arith,
}
use eta.Serializer.Stream.{Result, ok, unexpected, stuck, invalid_bytecode}
use eta.Serializer.Artifact.{Instruction, BytecodeFunction}

-- `OpCode`: the ones that the check tells apart, and the last of each block of values.
abbrev pub load_const : ℕ
load_const = 1

abbrev pub load_local : ℕ
load_local = 2

abbrev pub store_local : ℕ
store_local = 3

abbrev pub make_closure : ℕ
make_closure = 15

abbrev pub reserved2 : ℕ
reserved2 = 41

abbrev pub wam_get_var : ℕ
wam_get_var = 0x80

abbrev pub wam_switch_on_struct : ℕ
wam_switch_on_struct = 0x98

-- Whether `to_string` of the opcode is not "Unknown".
unfoldable pub is_known : ℕ → Bool
is_known op = leb op reserved2 || (leb wam_get_var op && leb op wam_switch_on_struct)

-- Whether the check rejects the instruction.
unfoldable pub is_invalid : ℕ → ℕ → Instruction → Bool
unfolding is_known
is_invalid nconsts stack_size instr =
    if not (is_known instr.opcode)
    then true
    else if instr.opcode == load_const
    then nconsts == 0 || leb nconsts instr.arg
    else if (instr.opcode == load_local) || (instr.opcode == store_local)
    then ltb 0 stack_size && leb stack_size instr.arg
    else if instr.opcode == make_closure
    then nconsts == 0 || leb nconsts (instr.arg / 2 ^ 16)
    else false

unfoldable pub verify_code : ℕ → ℕ → List Instruction → Result (Unit {0})
unfolding is_invalid
verify_code nconsts stack_size [] = ok tt
verify_code nconsts stack_size (instr ∷ code) =
    if is_invalid nconsts stack_size instr
    then unexpected invalid_bytecode
    else verify_code nconsts stack_size code

unfoldable pub verify_function : BytecodeFunction → Result (Unit {0})
unfolding verify_code
verify_function func = verify_code (length func.constants % 2 ^ 32) func.stack_size func.code

-- `if (!vr) return std::unexpected(vr.error());` before what follows
abbrev pub unless_error : Result (Unit {0}) → Result (Unit {0}) → Result (Unit {0})
unless_error (ok _) next = next
unless_error (unexpected e) next = unexpected e
unless_error stuck next = stuck

-- The loop over the registry.
unfoldable pub verify_all : List BytecodeFunction → Result (Unit {0})
verify_all [] = ok tt
verify_all (func ∷ funcs) = unless_error (verify_function func) (verify_all funcs)

-- The opcode is one of the enumeration, and the constant of `LoadConst` or `MakeClosure` and the slot
-- of `LoadLocal` or `StoreLocal` are in range. A stack size of zero leaves slots unchecked.
pub record IsSafe (nconsts stack_size : ℕ) (instr : Instruction) : Type 0 where
  pub known : (instr.opcode ≤ 41) ⊎ ((0x80 ≤ instr.opcode) × (instr.opcode ≤ 0x98))
  pub constant : instr.opcode ≡ load_const → instr.arg < nconsts
  pub local_slot :
      (instr.opcode ≡ load_local) ⊎ (instr.opcode ≡ store_local)
      → (stack_size ≡ 0) ⊎ (instr.arg < stack_size)
  pub closure : instr.opcode ≡ make_closure → instr.arg / 2 ^ 16 < nconsts

module _ (nconsts stack_size : ℕ) (instr : Instruction) where
  accepted-IsSafe : is_invalid nconsts stack_size instr ≡ false → IsSafe nconsts stack_size instr
  unfolding is_invalid
  accepted-IsSafe h = record {
    known = known h;
    constant = λ e. ground arith;
    local_slot = slot h;
    closure = λ e. ground arith;
  }
    where
      known :
          is_invalid nconsts stack_size instr ≡ false
          → (instr.opcode ≤ 41) ⊎ ((0x80 ≤ instr.opcode) × (instr.opcode ≤ 0x98))
      known h = elim (Bool-cases (leb instr.opcode reserved2)) [
        | inl e ↦ inl (ground arith)
        | inr e ↦ inr (ground arith)
      ]

      slot :
          is_invalid nconsts stack_size instr ≡ false
          → (instr.opcode ≡ load_local) ⊎ (instr.opcode ≡ store_local)
          → (stack_size ≡ 0) ⊎ (instr.arg < stack_size)
      slot h e = elim (Bool-cases (ltb 0 stack_size)) [
        | inl p ↦ inr (ground arith)
        | inr p ↦ inl (ground arith)
      ]

  IsSafe-accepted : IsSafe nconsts stack_size instr → is_invalid nconsts stack_size instr ≡ false
  unfolding is_invalid
  IsSafe-accepted s = ground (arith, s.known, s.constant, s.local_slot, s.closure)

pub verify_code_iff :
    (nconsts stack_size : ℕ) (code : List Instruction)
    → (verify_code nconsts stack_size code ≡ ok tt) ↔ All (IsSafe nconsts stack_size) code
unfolding verify_code
verify_code_iff nconsts stack_size [] = (λ h. tt, λ h. refl)
verify_code_iff nconsts stack_size (instr ∷ code) =
    let rest = verify_code_iff nconsts stack_size code in
    elim (Bool-cases (is_invalid nconsts stack_size instr)) [
      | inl bad ↦ rw bad (λ h. cc, λ s. cc (IsSafe-accepted nconsts stack_size instr s.0))
      | inr good ↦
          rw good (λ h. (accepted-IsSafe nconsts stack_size instr good, rest.0 h), λ s. rest.1 s.1)
    ]

abbrev pub FunctionIsSafe : BytecodeFunction → Type 0
FunctionIsSafe func = All (IsSafe (length func.constants % 2 ^ 32) func.stack_size) func.code

-- The functions of a file are accepted exactly if every instruction of each has a known opcode,
-- `LoadConst` and `MakeClosure` name constants in range, and, in a function whose stack size is not
-- zero, `LoadLocal` and `StoreLocal` name slots in range. The tag constant of `SetupCatch` is not
-- looked at.
pub verify_all_iff :
    (funcs : List BytecodeFunction) → (verify_all funcs ≡ ok tt) ↔ All FunctionIsSafe funcs
unfolding verify_all verify_function
verify_all_iff [] = (λ h. tt, λ h. refl)
verify_all_iff (func ∷ funcs) =
    both (verify_function func) (verify_all funcs) (verify_code_iff _ func.stack_size func.code)
      (verify_all_iff funcs)
  where
    both :
        {P Q : Type 0} (r next : Result (Unit {0}))
        → (r ≡ ok tt) ↔ P
        → (next ≡ ok tt) ↔ Q
        → (unless_error r next ≡ ok tt) ↔ (P × Q)
    both (ok tt) next p q = (λ h. (p.0 refl, q.0 h), λ s. q.1 s.1)
    both (unexpected e) next p q = (λ h. cc, λ s. cc (p.1 s.0))
    both stuck next p q = (λ h. cc, λ s. cc (p.1 s.0))

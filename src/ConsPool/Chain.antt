-- ===== src/ConsPool/Chain.antt =====
-- The free list of memory/cons_pool.h, and what holds of a pool between calls.
use eta.Prelude.{
  suc, ◌≤◌, ◌≡◌, refl, sym, ap, ◌∙◌, Bool, true, false, ◌==◌, if◌then◌else◌, List, [], ◌∷◌, length,
  Option, none, some, Bool-cases, inl, inr, arith,
}
use mathlib.Core.Path.{subst, ap₂}
use eta.ConsPool.{ObjectId, ConsSlot, ConsPool, find_slot}
use eta.ConsPool.Contents.{next_free}
use eta.ConsPool.Slots.{AllBelow}

-- A way to look up slots.
abbrev pub Look : Type 0
Look = ObjectId → Option ConsSlot

-- From `head` the free slots `ids` follow one another to the end of the list.
abbrev pub Chain : Look → Option ObjectId → List ObjectId → Type 0
Chain look none [] = Unit
Chain look none (i ∷ is) = ⊥
Chain look (some h) [] = ⊥
Chain look (some h) (i ∷ is) =
    (h ≡ i)
    × (slot : ConsSlot) × (next : Option ObjectId) × (look i ≡ some slot)
    × (slot.allocated ≡ false)
    × (slot.contents ≡ next_free next)
    × Chain look next is

unfoldable pub is_in : ObjectId → List ObjectId → Bool
is_in i [] = false
is_in i (j ∷ js) = if j == i then true else is_in i js

pub record Valid (p : ConsPool) : Type 0 where
  pub free_ids : List ObjectId
  pub chained : Chain (λ i. find_slot i p.slabs) p.free_head free_ids
  pub complete :
      (i : ObjectId) (slot : ConsSlot)
      → find_slot i p.slabs ≡ some slot
      → slot.allocated ≡ false
      → is_in i free_ids ≡ true
  pub named : (i : ObjectId) (slot : ConsSlot) → find_slot i p.slabs ≡ some slot → slot.id ≡ i
  pub below : AllBelow p.id_source p.slabs

-- The same head starts only one list: the free list has no cycle and meets no slot twice.
Chain-unique :
    (look : Look) (h : Option ObjectId) (is js : List ObjectId)
    → Chain look h is
    → Chain look h js
    → is ≡ js
Chain-unique look none [] [] c d = refl
Chain-unique look none [] (j ∷ js) c d = elim d [ ]
Chain-unique look none (i ∷ is) js c d = elim c [ ]
Chain-unique look (some h) [] js c d = elim c [ ]
Chain-unique look (some h) (i ∷ is) [] c d = elim d [ ]
Chain-unique look (some h) (i ∷ is) (j ∷ js) (hi, s, n, ls, fs, cs, rest)
      (hj, t, m, lt, ft, ct, rest2) =
    let same_id : i ≡ j = cc in
    let same_next : n ≡ m = cc in
    ap₂ ◌∷◌ same_id
      (Chain-unique look n is js rest (subst (λ k. Chain look k js) (sym same_next) rest2))

-- The rest of a list from an id in it on.
Chain-from :
    (look : Look) (h : Option ObjectId) (is : List ObjectId) (i : ObjectId)
    → Chain look h is
    → is_in i is ≡ true
    → (js : List ObjectId) × Chain look (some i) js × (length js ≤ length is)
unfolding is_in
Chain-from look none [] i c e = absurd cc
Chain-from look none (j ∷ js) i c e = elim c [ ]
Chain-from look (some h) [] i c e = elim c [ ]
Chain-from look (some h) (j ∷ js) i (hj, s, n, ls, fs, cs, rest) e = elim (Bool-cases (j == i)) [
  | inl here ↦
      let same : i ≡ j = ground arith in (j ∷ js, (same, s, n, ls, fs, cs, rest), omega arith)
  | inr later ↦
      let inner : is_in i js ≡ true = ground arith in
      let (ks, chain, short) = Chain-from look n js i rest inner in
      (ks, chain, omega (arith, short))
]

-- The head of the free list is not met again in it.
pub head_not_in_rest :
    (look : Look) (h : ObjectId) (is : List ObjectId)
    → Chain look (some h) (h ∷ is)
    → is_in h is ≡ false
head_not_in_rest look h is (hi, s, n, ls, fs, cs, rest) = elim (Bool-cases (is_in h is)) [
  | inr absent ↦ absent
  | inl again ↦
      let (js, chain, short) = Chain-from look n is h rest again in
      let same : js ≡ h ∷ is =
        Chain-unique look (some h) js (h ∷ is) chain (hi, s, n, ls, fs, cs, rest) in
      let long : length js ≡ suc (length is) = ap length same in absurd (omega (arith, short, long))
]

-- A chain is one for any other look-up that finds free slots with the same links along it.
pub Chain-follows :
    (look look2 : Look) (h : Option ObjectId) (is : List ObjectId)
    → ((i : ObjectId) (slot : ConsSlot)
        → is_in i is ≡ true
        → look i ≡ some slot
        → slot.allocated ≡ false
        → (slot2 : ConsSlot) × (look2 i ≡ some slot2)
          × (slot2.allocated ≡ false)
          × (slot2.contents ≡ slot.contents))
    → Chain look h is
    → Chain look2 h is
unfolding is_in
Chain-follows look look2 none [] same c = tt
Chain-follows look look2 none (i ∷ is) same c = elim c [ ]
Chain-follows look look2 (some h) [] same c = elim c [ ]
Chain-follows look look2 (some h) (i ∷ is) same (hi, s, n, ls, fs, cs, rest) =
    let (s2, ls2, fs2, cs2) = same i s (ground arith) ls fs in
    (
      hi,
      s2,
      n,
      ls2,
      fs2,
      cs2 ∙ cs,
      Chain-follows look look2 n is (λ j slot e. same j slot (ground arith)) rest,
    )

pub Chain-agrees :
    (look look2 : Look) (h : Option ObjectId) (is : List ObjectId)
    → ((i : ObjectId) (slot : ConsSlot)
        → is_in i is ≡ true
        → look i ≡ some slot
        → slot.allocated ≡ false
        → look2 i ≡ some slot)
    → Chain look h is
    → Chain look2 h is
Chain-agrees look look2 h is same =
    Chain-follows look look2 h is (λ i slot e l f. (slot, same i slot e l f, f, refl))

-- ===== src/InternTable/Maps.antt =====
-- The two maps of the intern table, and what their operations do to lookups.
use eta.Prelude.{
  ℕ, ◌≡◌, refl, ◌==◌, if◌then◌else◌, List, [], ◌∷◌, Option, some, none, arith, text_eq,
}
pub use eta.Prelude.{Text}

unfoldable pub find_id : Text → List (Text × ℕ) → Option ℕ
find_id s [] = none
find_id s ((t, id) ∷ m) = if text_eq t s then some id else find_id s m

unfoldable pub find_text : ℕ → List (ℕ × Text) → Option Text
find_text id [] = none
find_text id ((j, t) ∷ m) = if j == id then some t else find_text id m

-- `emplace` where the key is absent
unfoldable pub put_id : Text → ℕ → List (Text × ℕ) → List (Text × ℕ)
put_id s id m = (s, id) ∷ m

-- `emplace` keeps what a key has.
unfoldable pub put_text : ℕ → Text → List (ℕ × Text) → List (ℕ × Text)
unfolding find_text
put_text id s m = elim (find_text id m) [ some t ↦ m | none ↦ (id, s) ∷ m ]

unfoldable pub drop_text : ℕ → List (ℕ × Text) → List (ℕ × Text)
drop_text id [] = []
drop_text id ((j, t) ∷ m) = let rest = drop_text id m in if j == id then rest else (j, t) ∷ rest

pub find_id-put_id :
    (s t : Text) (id : ℕ) (m : List (Text × ℕ))
    → find_id s (put_id t id m) ≡ (if text_eq t s then some id else find_id s m)
unfolding find_id put_id
find_id-put_id s t id m = refl

pub find_text-put_text :
    (i j : ℕ) (s : Text) (m : List (ℕ × Text))
    → find_text j m ≡ none
    → find_text i (put_text j s m) ≡ (if j == i then some s else find_text i m)
unfolding find_text put_text
find_text-put_text i j s m h = ground (arith, h)

pub find_text-drop_text :
    (i j : ℕ) (m : List (ℕ × Text))
    → find_text i (drop_text j m) ≡ (if j == i then none else find_text i m)
unfolding find_text drop_text
find_text-drop_text i j [] = ground arith
find_text-drop_text i j ((k, t) ∷ m) = ground (arith, find_text-drop_text i j m)

-- ===== src/Serializer/Constants/RoundTrip.antt =====
-- A constant that was written is read again.
use eta.Prelude.{ℕ, ◌≤◌, ◌≡◌, List, ◌++◌, some}
use eta.NanBox.{LispVal}
use eta.Serializer.Stream.{ok}
use eta.Serializer.Memory.{Memory, IsLawful, Grows}
use eta.Serializer.Constants.{write_constant, read_constant}
use eta.Serializer.Constants.Datum.{Datum, format, depth, cost, Fits, Shows}
use eta.Serializer.Constants.Written.{write_constant_lem}
use eta.Serializer.Constants.ReadBack.{read_constant_lem}

-- A word that stands for a datum within the limits of the format is written, and the bytes are read
-- in any memory with room for the datum as a word that stands for the same datum there. What follows
-- in the stream is left, and nothing that was stored is gone.
pub read_constant-write_constant :
    (memory : Memory) (lawful : IsLawful memory) (d : Datum) (m : memory.State) (v : LispVal)
    (m2 : memory.State) (rest : List ℕ) (fuel fuel' : ℕ)
    → Shows memory m v d
    → Fits d
    → depth d ≤ fuel
    → depth d ≤ fuel'
    → cost d ≤ lawful.room m2
    → (bytes : List ℕ) × (v' : LispVal) × (m' : memory.State) × (write_constant memory fuel m v
        ≡ some bytes)
      × (read_constant memory fuel' m2 (bytes ++ rest) ≡ ok (v', m', rest))
      × Shows memory m' v' d
      × Grows memory m2 m'
read_constant-write_constant memory lawful d m v m2 rest fuel fuel' s f h h' r =
    let (v', m', e, s', g, left) = read_constant_lem memory lawful d m2 rest fuel' h' f r in
    (format d, v', m', write_constant_lem memory d m v fuel h f s, e, s', g)

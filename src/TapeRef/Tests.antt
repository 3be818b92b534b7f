-- ===== src/TapeRef/Tests.antt =====
-- Runs of the theorems on runtime/types/tape_ref.h at concrete references.
use eta.Prelude.{◌%◌, ◌^◌, ◌≡◌, true}
use eta.TapeRef.{normalize_generation, is_tape_ref, make, decode}
use eta.TapeRef.RoundTrip.{decode-make}

decode-make_example :
    (is_tape_ref (make 5 1024 77) ≡ true)
    × (decode (make 5 1024 77) ≡ record {
      tape_id = 5 % 2 ^ 13;
      generation = normalize_generation 1024;
      node_index = 77 % 2 ^ 24;
    })
decode-make_example = decode-make 5 1024 77

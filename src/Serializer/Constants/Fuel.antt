-- ===== src/Serializer/Constants/Fuel.antt =====
-- How much fuel is enough: data are nested no deeper than their format is long.
use eta.Prelude.{◌≤◌, length, length-append, arith}
use eta.Serializer.Stream.RoundTrip.{length-write_u8}
use eta.Serializer.Constants.Datum.{
  Datum, Data, nil, cons, vector, end, item, format, format_data, depth, depth_data,
}

mutual
  unfolding depth depth_data format format_data

  depth-le-length : (d : Datum) → depth d ≤ length (format d)
  depth-le-length (cons a d) =
      omega (arith, length-append {0}, length-write_u8, depth-le-length a, depth-le-length d)
  depth-le-length (vector ds) =
      omega (arith, length-append {0}, length-write_u8, depth_data-le-length ds)
  depth-le-length nil = omega (arith, length-write_u8)
  depth-le-length _ = omega (arith, length-append {0}, length-write_u8)

  pub depth_data-le-length : (ds : Data) → depth_data ds ≤ length (format_data ds)
  depth_data-le-length end = omega arith
  depth_data-le-length (item d ds) =
      omega (arith, length-append {0}, depth-le-length d, depth_data-le-length ds)

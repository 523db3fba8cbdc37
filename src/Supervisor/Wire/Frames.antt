-- ===== src/Supervisor/Wire/Frames.antt =====
-- supervisor/wire.rs: what is read of a frame is what was written.
use ripmcp.Base.{
  ℕ, ◌≤◌, ◌<◌, ◌%◌, ◌^◌, ◌≡◌, refl, sym, ap, Option, some, [], ◌∷◌, ◌++◌, length, arith, is_empty,
  false, ltb, ◌||◌, ◌==◌,
}
use mathlib.Core.List.{append_assoc}
use ripmcp.Base.Error.{
  ok_or-eq-ok, Result, ok, refuse, ok_or, >>=-eq-ok, ok-injective, refuse-eq-ok, ◌>>◌,
}
use ripmcp.Storage.Transaction.{Bytes}
use ripmcp.Supervisor.Wire.{big_endian, read_u32, read_exact, read_limit, write_limit, incompatible}

read_u32-big_endian :
    (n : ℕ) (rest : Bytes) → n < 2 ^ 32 → read_u32 (big_endian n ++ rest) ≡ some (n, rest)
unfolding read_u32 big_endian
read_u32-big_endian n rest h = ap (λ m. some (m, rest)) (omega arith)

read_exact-append :
    (bytes rest : Bytes) → read_exact (length bytes) (bytes ++ rest) ≡ some (bytes, rest)
unfolding read_exact
read_exact-append [] rest = refl
read_exact-append (byte ∷ bytes) rest = rw (read_exact-append bytes rest) refl

-- A length that passes the test is no more than the limit, and not zero.
fitting :
    (bytes : Bytes) (limit : ℕ)
    → (is_empty bytes || ltb limit (length bytes)) ≡ false
    → (length bytes ≤ limit) × ((length bytes == 0 || ltb limit (length bytes)) ≡ false)
fitting [] limit h = cc
fitting (byte ∷ bytes) limit h = ground arith

length-modulo : (n limit : ℕ) → n ≤ limit → limit < 2 ^ 32 → n % 2 ^ 32 ≡ n
length-modulo n limit h k = omega arith

module _ {T : Type 0} where
  read_limit-frame :
      (from_slice : Bytes → Option T) (bytes rest : Bytes) (limit : ℕ) {value : T}
      → length bytes < 2 ^ 32
      → (length bytes == 0 || ltb limit (length bytes)) ≡ false
      → from_slice bytes ≡ some value
      → read_limit from_slice (big_endian (length bytes) ++ (bytes ++ rest)) limit
        ≡ ok (value, rest)
  unfolding read_limit
  read_limit-frame from_slice bytes rest limit small fits e =
      rw
        (
          read_u32-big_endian (length bytes) (bytes ++ rest) small,
          fits,
          read_exact-append bytes rest,
          e,
        )
        refl

  write_limit-eq-ok :
      (to_vec : T → Option Bytes) (write : Bytes → Result (Unit {0})) (value : T) (limit : ℕ)
      {frame : Bytes}
      → write_limit to_vec write value limit ≡ ok frame
      → (bytes : Bytes) × (to_vec value ≡ some bytes)
        × ((is_empty bytes || ltb limit (length bytes)) ≡ false)
        × (frame ≡ big_endian (length bytes % 2 ^ 32) ++ bytes)
  unfolding write_limit
  write_limit-eq-ok to_vec write value limit h =
      let (bytes, e, k1) = >>=-eq-ok (ok_or (to_vec value) incompatible) _ h in
      let (_, fits, k2) =
        >>=-eq-ok (refuse (is_empty bytes || ltb limit (length bytes)) incompatible)
          (λ _.
            write (big_endian (length bytes % 2 ^ 32))
            >> (write bytes >> ok (big_endian (length bytes % 2 ^ 32) ++ bytes)))
          k1 in
      let (_, _, k3) =
        >>=-eq-ok (write (big_endian (length bytes % 2 ^ 32)))
          (λ _. write bytes >> ok (big_endian (length bytes % 2 ^ 32) ++ bytes)) k2 in
      let (_, _, k4) =
        >>=-eq-ok (write bytes) (λ _. ok (big_endian (length bytes % 2 ^ 32) ++ bytes)) k3 in
      (bytes, ok_or-eq-ok (to_vec value) _ e, refuse-eq-ok _ _ fits, sym (ok-injective k4))

  -- With a limit below 2^32 and a JSON codec that reads back what it wrote: the frame that
  -- `write_limit` sends of a value is read by `read_limit`, at the same limit, as that value, and
  -- what follows the frame in the stream is left in it.
  pub read_limit-write_limit :
      (to_vec : T → Option Bytes) (from_slice : Bytes → Option T)
      (write : Bytes → Result (Unit {0})) (value : T) (limit : ℕ) (rest : Bytes) {frame : Bytes}
      → limit < 2 ^ 32
      → ((bytes : Bytes) → to_vec value ≡ some bytes → from_slice bytes ≡ some value)
      → write_limit to_vec write value limit ≡ ok frame
      → read_limit from_slice (frame ++ rest) limit ≡ ok (value, rest)
  read_limit-write_limit to_vec from_slice write value limit rest small lossless h =
      let (bytes, e, fits, f) = write_limit-eq-ok to_vec write value limit h in
      let (short, fits') = fitting bytes limit fits in
      rw
        (
          f,
          length-modulo (length bytes) limit short small,
          append_assoc (big_endian (length bytes)) bytes rest,
        )
        (read_limit-frame from_slice bytes rest limit (omega (arith, short, small)) fits'
          (lossless bytes e))

-- ===== src/Supervisor/Wire.antt =====
-- supervisor/wire.rs: messages framed by their length in four bytes, the most significant first.
-- The
-- writer's stream is what was sent, the reader's what is still to come; serde_json is a parameter.
pub mod Frames
use ripmcp.Base.{
  ℕ, zero, suc, is_empty, ◌+◌, ◌*◌, ◌/◌, ◌%◌, ◌^◌, ◌||◌, Option, none, some, List, [], ◌∷◌, ◌++◌,
  length, ltb, ◌==◌,
}
use ripmcp.Base.Error.{
  Error, Result, new, connection, protocol, ok, err, refuse, ok_or, ◌>>=◌, ◌>>◌,
}
use ripmcp.Storage.Transaction.{Bytes}

-- `FRAME_LIMIT` and `DATA_LIMIT`
abbrev pub frame_limit : ℕ
frame_limit = 4096

abbrev pub data_limit : ℕ
data_limit = 64 * 1024 * 1024

-- `write_u32` and `read_u32`, of tokio.
unfoldable pub big_endian : ℕ → Bytes
big_endian n = ((n / 2 ^ 24) % 256) ∷ ((n / 2 ^ 16) % 256) ∷ ((n / 2 ^ 8) % 256) ∷ (n % 256) ∷ []

unfoldable pub read_u32 : Bytes → Option (ℕ × Bytes)
read_u32 (a ∷ b ∷ c ∷ d ∷ rest) = some (a * 2 ^ 24 + b * 2 ^ 16 + c * 2 ^ 8 + d, rest)
read_u32 _ = none

-- `read_exact`
unfoldable pub read_exact : ℕ → Bytes → Option (Bytes × Bytes)
read_exact zero stream = some ([], stream)
read_exact (suc n) [] = none
read_exact (suc n) (byte ∷ stream) = elim (read_exact n stream) [
  | none ↦ none
  | some (bytes, rest) ↦ some (byte ∷ bytes, rest)
]

abbrev pub unavailable : Error
unavailable = new connection "supervisor connection closed"

abbrev pub incompatible : Error
incompatible = new protocol "incompatible supervisor IPC protocol"

module _ {T : Type 0} where
  -- With the message, what the stream has left.
  unfoldable pub read_limit : (Bytes → Option T) → Bytes → ℕ → Result (T × Bytes)
  read_limit from_slice stream limit = do
    (size, stream) ← ok_or (read_u32 stream) unavailable
    refuse (size == 0 || ltb limit size) incompatible
    (bytes, stream) ← ok_or (read_exact size stream) unavailable
    value ← ok_or (from_slice bytes) incompatible
    ok (value, stream)

  abbrev pub read : (Bytes → Option T) → Bytes → Result (T × Bytes)
  read from_slice stream = read_limit from_slice stream frame_limit

  -- The bytes that are written, in two writes, which may fail.
  unfoldable pub write_limit :
      (T → Option Bytes) → (Bytes → Result (Unit {0})) → T → ℕ → Result Bytes
  write_limit to_vec write value limit = do
    bytes ← ok_or (to_vec value) incompatible
    refuse (is_empty bytes || ltb limit (length bytes)) incompatible
    write (big_endian (length bytes % 2 ^ 32))
    write bytes
    ok (big_endian (length bytes % 2 ^ 32) ++ bytes)

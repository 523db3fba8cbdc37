-- ===== src/Mcp/Sse.antt =====
-- mcp/sse.rs: the events of a stream, read in chunks of any size.
pub mod Chunks
pub mod Bounds
pub mod Sent
pub mod Lines
pub mod Answers
use ripmcp.Base.{
  ℕ, ◌+◌, ◌^◌, Bool, true, false, not, ◌&&◌, ◌||◌, Option, none, some, List, [], ◌∷◌, ◌++◌,
  is_empty, ltb, leb, ◌==◌, if◌then◌else◌,
}
use ripmcp.Base.Error.{Result, ok, err}
use ripmcp.Base.Order.{eqb, list_ord, nat_ord}
use ripmcp.Base.Text.{Text, codes}
use ripmcp.Json.{Value}
use ripmcp.Mcp.Protocol.{Message, response, notification, protocol_error, limit_error}
use ripmcp.Storage.Transaction.{Bytes}

pub record Events : Type 0 where
  pub line : Bytes
  pub data_ : Bytes
  pub event : Bytes
  pub bytes : ℕ
  pub limit : ℕ
  pub after_cr : Bool
  pub first_line : Bool

abbrev pub new : ℕ → Events
new limit = record {
  line = [];
  data_ = [];
  event = [];
  bytes = 0;
  limit = limit;
  after_cr = false;
  first_line = true;
}

abbrev pub line_feed : ℕ
line_feed = 10

abbrev pub carriage_return : ℕ
carriage_return = 13

-- `data.pop()` on a list that is not empty.
unfoldable pub pop : Bytes → Bytes
pop [] = []
pop (b ∷ []) = []
pop (b ∷ bs) = b ∷ pop bs

-- The field and the value of a line, around its first colon.
unfoldable pub split_field : Bytes → Bytes × Bytes
split_field [] = ([], [])
split_field (b ∷ bs) =
    let (field, value) = split_field bs in if b == b':' then ([], bs) else (b ∷ field, value)

abbrev pub strip_space : Bytes → Bytes
strip_space [] = []
strip_space (b ∷ bs) = if b == b' ' then bs else b ∷ bs

-- A byte order mark on the first line.
abbrev pub strip_mark : Bool → Bytes → Bytes
strip_mark true (a ∷ b ∷ c ∷ rest) =
    if a == 0xef && b == 0xbb && c == 0xbf then rest else a ∷ b ∷ c ∷ rest
strip_mark _ line = line

-- The id, result or notification that a message is, against the id that is waited for.
unfoldable pub accept : Text → Message → Result (Option Value)
accept id notification = ok none
accept id (response none result) = err protocol_error
accept id (response (some response_id) (ok result)) =
    if eqb response_id id then ok (some result) else err protocol_error
accept id (response (some response_id) (err e)) =
    if eqb response_id id then err e else err protocol_error

-- `std::str::from_utf8` as a test, and `protocol::decode`.
module _ (is_utf8 : Bytes → Bool) (decode : Bytes → Result Message) (id : Text) where
  abbrev pub decoded : Bytes → Result (Option Value)
  decoded bytes = elim (decode bytes) [ err e ↦ err e | ok message ↦ accept id message ]

  unfoldable pub dispatch : Events → Result (Option Value) × Events
  unfolding accept pop
  dispatch s = (
    (if is_empty s.data_
        then ok none
        else if not (is_empty s.event) && not (eqb s.event (codes "message"))
        then err protocol_error
        else decoded (pop s.data_)),
    record s { data_ = []; event = []; bytes = 0 },
  )

  abbrev pub store_field : Bytes → Bytes → Events → Events
  store_field field value s =
      if eqb field (codes "data")
      then record s { data_ = s.data_ ++ (value ++ (line_feed ∷ [])) }
      else if eqb field (codes "event")
      then record s { event = value }
      else s

  -- `Events::line`, on the line that was taken out.
  unfoldable pub end_line : Bytes → Events → Result (Option Value) × Events
  unfolding dispatch split_field
  end_line line s =
      if not (is_utf8 line)
      then (err protocol_error, s)
      else if is_empty line
      then dispatch s
      else (let (field, value) = split_field line in
          (ok none, store_field field (strip_space value) s))

  -- One round of the loop of `feed`.
  unfoldable pub feed_byte : ℕ → Events → Result (Option Value) × Events
  feed_byte byte s =
      if s.after_cr && byte == line_feed
      then (ok none, record s { after_cr = false })
      else if leb (2 ^ 64) (s.bytes + 1)
      then (err limit_error, record s { after_cr = byte == carriage_return })
      else if ltb s.limit (s.bytes + 1)
      then (err limit_error, record s { after_cr = byte == carriage_return; bytes = s.bytes + 1 })
      else if not (byte == carriage_return) && not (byte == line_feed)
      then (
        ok none,
        record s {
          after_cr = byte == carriage_return;
          bytes = s.bytes + 1;
          line = s.line ++ (byte ∷ []);
        },
      )
      else end_line (strip_mark s.first_line s.line) (record s {
        after_cr = byte == carriage_return;
        bytes = s.bytes + 1;
        line = [];
        first_line = false;
      })

  abbrev pub continue :
      Result (Option Value) × Events
      → (Events → Result (Option Value) × Events)
      → Result (Option Value) × Events
  continue (ok none, s) rest = rest s
  continue (ok (some v), s) rest = (ok (some v), s)
  continue (err e, s) rest = (err e, s)

  -- The rest of a chunk behind a result is not looked at.
  unfoldable pub feed : Bytes → Events → Result (Option Value) × Events
  unfolding feed_byte
  feed [] s = (ok none, s)
  feed (byte ∷ chunk) s = continue (feed_byte byte s) (feed chunk)

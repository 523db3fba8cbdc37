-- ===== src/Mcp/Sse/Bounds.antt =====
-- mcp/sse.rs: how much of a stream is held in memory.
use ripmcp.Base.{
  ℕ, ◌+◌, ◌≤◌, ◌≡◌, Bool, true, false, [], ◌∷◌, ◌++◌, length, length-append, Option, none, some,
  arith, Bool-cases, inl, inr, is_empty, not, ◌&&◌, ◌==◌, leb, ltb, ◌^◌, refl,
}
use ripmcp.Base.Error.{Result, ok, err}
use ripmcp.Base.Text.{Text}
use ripmcp.Json.{Value}
use ripmcp.Mcp.Protocol.{Message}
use ripmcp.Mcp.Sse.{
  Events, feed, feed_byte, continue, dispatch, end_line, split_field, store_field, strip_mark,
  strip_space, new, line_feed, carriage_return,
}
use ripmcp.Storage.Transaction.{Bytes}

-- The buffers hold no more than the bytes since the last event, nor more than the limit.
pub record IsBounded (limit : ℕ) (s : Events) : Type 0 where
  pub read : length s.line + (length s.data_ + length s.event) ≤ s.bytes
  pub limited : length s.line + (length s.data_ + length s.event) ≤ limit
  pub kept : s.limit ≡ limit

ltb_fits : (limit bytes : ℕ) → ltb limit bytes ≡ false → bytes ≤ limit
ltb_fits limit bytes h = ground arith

split_field-length :
    (line : Bytes) → length (split_field line).0 + length (split_field line).1 ≤ length line
unfolding split_field
split_field-length [] = omega arith
split_field-length (b ∷ bs) = ground (arith, split_field-length bs)

length-strip_space : (b : Bytes) → length (strip_space b) ≤ length b
length-strip_space [] = omega arith
length-strip_space (b ∷ bs) = ground arith

length-strip_mark : (first : Bool) (b : Bytes) → length (strip_mark first b) ≤ length b
length-strip_mark true (a ∷ b ∷ c ∷ rest) = ground arith
length-strip_mark true [] = omega arith
length-strip_mark true (a ∷ []) = omega arith
length-strip_mark true (a ∷ b ∷ []) = omega arith
length-strip_mark false b = omega arith

module _ (is_utf8 : Bytes → Bool) (decode : Bytes → Result Message) (id : Text) (limit : ℕ) where
  length-store_field :
      (field value : Bytes) (s : Events)
      → s.limit ≡ limit
      → length s.line ≡ 0
      → length field + length value + 1 + (length s.data_ + length s.event) ≤ s.bytes
      → length field + length value + 1 + (length s.data_ + length s.event) ≤ s.limit
      → IsBounded limit (store_field is_utf8 decode id field value s)
  length-store_field field value s q e h k = ground (
    arith,
    length-append s.data_ (value ++ (line_feed ∷ [])),
    length-append value (line_feed ∷ []),
  )

  dispatch-IsBounded :
      (s : Events)
      → s.limit ≡ limit
      → length s.line ≡ 0
      → IsBounded limit (dispatch is_utf8 decode id s).1
  unfolding dispatch
  dispatch-IsBounded s e = ground arith

  end_line-IsBounded :
      (line : Bytes) (s : Events)
      → s.limit ≡ limit
      → length s.line ≡ 0
      → length line + 1 + (length s.data_ + length s.event) ≤ s.bytes
      → length line + 1 + (length s.data_ + length s.event) ≤ s.limit
      → IsBounded limit (end_line is_utf8 decode id line s).1
  unfolding end_line
  end_line-IsBounded line s q e h k =
      let (field, value) = split_field line in
      let parts = split_field-length line in
      let shorter = length-strip_space value in
      elim (Bool-cases (is_utf8 line)) [
        | inl valid ↦ rw valid (elim (Bool-cases (is_empty line)) [
          | inl nothing ↦ rw nothing (dispatch-IsBounded s q e)
          | inr some_line ↦
              rw some_line
                (length-store_field field (strip_space value) s q e (omega arith) (omega arith))
        ])
        | inr invalid ↦ rw invalid (omega arith)
      ]

  feed_byte-IsBounded :
      (byte : ℕ) (s : Events)
      → IsBounded limit s
      → IsBounded limit (feed_byte is_utf8 decode id byte s).1
  unfolding feed_byte
  feed_byte-IsBounded byte s h =
      let shorter = length-strip_mark s.first_line s.line in
      elim (Bool-cases (s.after_cr && byte == line_feed)) [
        | inl skipped ↦ rw skipped (omega arith)
        | inr counted ↦ rw counted (elim (Bool-cases (leb (2 ^ 64) (s.bytes + 1))) [
          | inl overflow ↦ rw overflow (omega arith)
          | inr small ↦ rw small (elim (Bool-cases (ltb s.limit (s.bytes + 1))) [
            | inl long ↦ rw long (omega arith)
            | inr fits ↦
                rw fits
                  (elim (Bool-cases (not (byte == carriage_return) && not (byte == line_feed))) [
                    | inl inside ↦ rw inside (
                        omega (
                          arith,
                          length-append s.line (byte ∷ []),
                          ltb_fits s.limit (s.bytes + 1) fits,
                        ))
                    | inr ending ↦ rw ending (
                        end_line-IsBounded (strip_mark s.first_line s.line)
                          (record s {
                            after_cr = byte == carriage_return;
                            bytes = s.bytes + 1;
                            line = [];
                            first_line = false;
                          })
                          h.kept refl (omega arith)
                          (omega (arith, ltb_fits s.limit (s.bytes + 1) fits)))
                  ])
          ])
        ])
      ]

  continue-IsBounded :
      (p : Result (Option Value) × Events) (rest : Events → Result (Option Value) × Events)
      → IsBounded limit p.1
      → ((s : Events) → IsBounded limit s → IsBounded limit (rest s).1)
      → IsBounded limit (continue is_utf8 decode id p rest).1
  continue-IsBounded (ok none, s) rest h g = g s h
  continue-IsBounded (ok (some v), s) rest h g = h
  continue-IsBounded (err e, s) rest h g = h

  feed-IsBounded_lem :
      (chunk : Bytes) (s : Events)
      → IsBounded limit s
      → IsBounded limit (feed is_utf8 decode id chunk s).1
  unfolding feed
  feed-IsBounded_lem [] s h = h
  feed-IsBounded_lem (byte ∷ chunk) s h =
      continue-IsBounded (feed_byte is_utf8 decode id byte s) (feed is_utf8 decode id chunk)
        (feed_byte-IsBounded byte s h) (feed-IsBounded_lem chunk)

  -- From a new reader with any limit, whatever has been fed, the unfinished line and the event so
  -- far
  -- hold no more bytes than the limit.
  pub feed-IsBounded :
      (stream : Bytes) → IsBounded limit (feed is_utf8 decode id stream (new limit)).1
  feed-IsBounded stream = feed-IsBounded_lem stream (new limit) (omega arith)

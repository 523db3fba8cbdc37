-- ===== src/Mcp/Sse/Lines.antt =====
-- mcp/sse.rs: how the lines of an event are read.
use mathlib.Core.List.{append_assoc, append-nil}
use ripmcp.Base.{
  ℕ, ◌+◌, ◌≤◌, ◌<◌, ◌≡◌, ◌^◌, refl, ◌∙◌, Bool, true, false, not, ◌&&◌, ◌||◌, [], ◌∷◌, ◌++◌, length,
  none, arith, ◌==◌, ltb, leb,
}
use ripmcp.Base.Error.{Result, ok}
use ripmcp.Base.Text.{Text, codes}
use ripmcp.Mcp.Protocol.{Message}
use ripmcp.Mcp.Sse.{feed, feed_byte, dispatch, end_line, split_field, strip_mark, decoded}
use ripmcp.Storage.Transaction.{Bytes}
use ripmcp.Mcp.Sse.Sent.{
  Ending, lf, cr, crlf, ending, is_cr, IsPlain, pop-append, not_empty, text_length, plus_zero,
  plus_suc, reader,
}

module _ (is_utf8 : Bytes → Bool) (decode : Bytes → Result Message) (id : Text) (limit : ℕ) where
  -- A byte that ends no line.
  feed_byte_plain :
      (b : ℕ) (line lines : Bytes) (bytes : ℕ) (after_cr first_line : Bool)
      → (b == 10 || b == 13) ≡ false
      → bytes + 1 ≤ limit
      → limit < 2 ^ 64
      → feed_byte is_utf8 decode id b (reader limit line lines bytes after_cr first_line)
        ≡ (ok none, reader limit (line ++ (b ∷ [])) lines (bytes + 1) false first_line)
  unfolding feed_byte
  feed_byte_plain b line lines bytes after_cr first_line p h k =
      let kept : (after_cr && b == 10) ≡ false = ground arith in
      let not_lf : (b == 10) ≡ false = ground arith in
      let not_cr : (b == 13) ≡ false = ground arith in
      let small : leb (2 ^ 64) (bytes + 1) ≡ false = ground arith in
      let fits : ltb limit (bytes + 1) ≡ false = ground arith in
      rw (kept, small, fits, not_lf, not_cr) refl

  feed_plain :
      (bs line lines : Bytes) (bytes : ℕ) (first_line : Bool)
      → IsPlain bs
      → bytes + length bs ≤ limit
      → limit < 2 ^ 64
      → feed is_utf8 decode id bs (reader limit line lines bytes false first_line)
        ≡ (ok none, reader limit (line ++ bs) lines (bytes + length bs) false first_line)
  unfolding feed
  feed_plain [] line lines bytes first_line p h k = rw (append-nil line, plus_zero bytes) refl
  feed_plain (b ∷ bs) line lines bytes first_line p h k =
      rw (feed_byte_plain b line lines bytes false first_line p.0 (omega arith) k) (
        feed_plain bs (line ++ (b ∷ [])) lines (bytes + 1) first_line p.1 (omega arith) k
        ∙ rw (append_assoc line (b ∷ []) bs, plus_suc bytes (length bs)) refl)

  pub end_byte :
      (b : ℕ) (line lines : Bytes) (bytes : ℕ) (after_cr first_line : Bool)
      → (b == 10 || b == 13) ≡ true
      → (after_cr && b == 10) ≡ false
      → bytes + 1 ≤ limit
      → limit < 2 ^ 64
      → feed_byte is_utf8 decode id b (reader limit line lines bytes after_cr first_line)
        ≡ end_line is_utf8 decode id
            (strip_mark first_line line)
            (reader limit [] lines (bytes + 1) (b == 13) false)
  unfolding feed_byte
  end_byte b line lines bytes after_cr first_line p kept h k =
      let both : (not (b == 13) && not (b == 10)) ≡ false = ground arith in
      let small : leb (2 ^ 64) (bytes + 1) ≡ false = ground arith in
      let fits : ltb limit (bytes + 1) ≡ false = ground arith in rw (kept, small, fits, both) refl

  data_line :
      (l lines : Bytes) (bytes : ℕ) (after_cr first_line : Bool)
      → is_utf8 (codes "data: " ++ l) ≡ true
      → end_line is_utf8 decode id
          (strip_mark first_line (codes "data: " ++ l))
          (reader limit [] lines bytes after_cr false)
        ≡ (ok none, reader limit [] (lines ++ (l ++ (10 ∷ []))) bytes after_cr false)
  unfolding end_line split_field
  data_line l lines bytes after_cr true valid = rw valid refl
  data_line l lines bytes after_cr false valid = rw valid refl

  pub blank_line :
      (lines : Bytes) (bytes : ℕ) (after_cr : Bool)
      → is_utf8 [] ≡ true
      → end_line is_utf8 decode id [] (reader limit [] (lines ++ (10 ∷ [])) bytes after_cr false)
        ≡ (decoded is_utf8 decode id lines, reader limit [] [] 0 after_cr false)
  unfolding end_line dispatch
  blank_line lines bytes after_cr valid = rw (valid, not_empty lines 10, pop-append lines 10) refl

  -- The text of a line of data.
  pub feed_text :
      (l lines : Bytes) (bytes : ℕ) (after_cr first_line : Bool)
      → IsPlain l
      → bytes + 6 + length l ≤ limit
      → limit < 2 ^ 64
      → feed is_utf8 decode id
          (codes "data: " ++ l)
          (reader limit [] lines bytes after_cr first_line)
        ≡ (
          ok none,
          reader limit (codes "data: " ++ l) lines (bytes + 6 + length l) false first_line,
        )
  unfolding feed
  feed_text l lines bytes after_cr first_line p h k =
      rw (feed_byte_plain 100 [] lines bytes after_cr first_line refl (omega arith) k) (
        feed_plain (codes "ata: " ++ l) (100 ∷ []) lines (bytes + 1) first_line
          (refl, (refl, (refl, (refl, (refl, p))))) (omega arith) k
        ∙ rw (text_length bytes l) refl)

  -- And its end.
  pub feed_end :
      (e : Ending) (l lines : Bytes) (bytes : ℕ) (first_line : Bool)
      → is_utf8 (codes "data: " ++ l) ≡ true
      → bytes + 1 ≤ limit
      → limit < 2 ^ 64
      → feed is_utf8 decode id
          (ending e)
          (reader limit (codes "data: " ++ l) lines bytes false first_line)
        ≡ (ok none, reader limit [] (lines ++ (l ++ (10 ∷ []))) (bytes + 1) (is_cr e) false)
  unfolding feed feed_byte
  feed_end lf l lines bytes first_line valid h k =
      rw
        (
          end_byte 10 (codes "data: " ++ l) lines bytes false first_line refl refl h k,
          data_line l lines (bytes + 1) false first_line valid,
        )
        refl
  feed_end cr l lines bytes first_line valid h k =
      rw
        (
          end_byte 13 (codes "data: " ++ l) lines bytes false first_line refl refl h k,
          data_line l lines (bytes + 1) true first_line valid,
        )
        refl
  feed_end crlf l lines bytes first_line valid h k =
      rw
        (
          end_byte 13 (codes "data: " ++ l) lines bytes false first_line refl refl h k,
          data_line l lines (bytes + 1) true first_line valid,
        )
        refl

-- ===== src/Mcp/Sse/Answers.antt =====
-- mcp/sse.rs: an event that a server sends is read as it was sent.
use mathlib.Core.List.{append_assoc, append-nil}
use ripmcp.Base.{
  ℕ, ◌+◌, ◌≤◌, ◌<◌, ◌≡◌, ◌^◌, refl, sym, ap, ◌∙◌, Bool, true, false, List, [], ◌∷◌, ◌++◌, length,
  Option, none, some, arith, All, ◌⊎◌, ◌≢◌, Bool-cases, inl, inr,
}
use ripmcp.Base.Error.{Result, ok, err}
use ripmcp.Base.Text.{Text, codes}
use ripmcp.Json.{Value}
use ripmcp.Mcp.Protocol.{Message, response, notification, protocol_error}
use ripmcp.Mcp.Sse.{Events, feed, feed_byte, continue, new, decoded, accept}
use ripmcp.Mcp.Sse.Chunks.{feed-append, together, feed_chunks, feed_chunks-joined}
use ripmcp.Storage.Transaction.{Bytes}
use ripmcp.Base.Order.{eqb, eqb_iff, list_ord, nat_ord}
use ripmcp.Mcp.Sse.Lines.{feed_text, feed_end, end_byte, blank_line}
use ripmcp.Mcp.Sse.Sent.{
  Ending, lf, cr, crlf, ending, is_cr, sent, joined, IsPlain, IsLine, counted, terminated,
  terminated-joined, reader,
}

module _ (id : Text) where
  -- What becomes of a message: an error of its reading is passed on, a notification gives nothing
  -- yet, and a response gives its result or its error if it has the id, and else is refused.
  pub IsAnswer : Result Message → Result (Option Value) → Type 0
  IsAnswer (err e) r = r ≡ err e
  IsAnswer (ok notification) r = r ≡ ok none
  IsAnswer (ok (response none result)) r = r ≡ err protocol_error
  IsAnswer (ok (response (some other) (ok value))) r =
      ((other ≡ id) × (r ≡ ok (some value))) ⊎ ((other ≢ id) × (r ≡ err protocol_error))
  IsAnswer (ok (response (some other) (err e))) r =
      ((other ≡ id) × (r ≡ err e)) ⊎ ((other ≢ id) × (r ≡ err protocol_error))

  different : (other : Text) → eqb other id ≡ false → other ≢ id
  different other e h = cc (e, (eqb_iff other id).1 h)

  accept_lem :
      (m : Result Message) → IsAnswer m (elim m [ err e ↦ err e | ok message ↦ accept id message ])
  unfolding IsAnswer accept
  accept_lem (err e) = refl
  accept_lem (ok notification) = refl
  accept_lem (ok (response none result)) = refl
  accept_lem (ok (response (some other) (ok value))) = elim (Bool-cases (eqb other id)) [
    | inl e ↦ rw e (inl ((eqb_iff other id).0 e, refl))
    | inr e ↦ rw e (inr (different other e, refl))
  ]
  accept_lem (ok (response (some other) (err x))) = elim (Bool-cases (eqb other id)) [
    | inl e ↦ rw e (inl ((eqb_iff other id).0 e, refl))
    | inr e ↦ rw e (inr (different other e, refl))
  ]

module _ (is_utf8 : Bytes → Bool) (decode : Bytes → Result Message) (id : Text) (limit : ℕ) where
  feed_line :
      (e : Ending) (l rest lines : Bytes) (bytes : ℕ) (after_cr first_line : Bool)
      → is_utf8 (codes "data: " ++ l) ≡ true
      → IsPlain l
      → bytes + 6 + length l + 1 ≤ limit
      → limit < 2 ^ 64
      → feed is_utf8 decode id
          ((codes "data: " ++ l) ++ (ending e ++ rest))
          (reader limit [] lines bytes after_cr first_line)
        ≡ feed is_utf8 decode id rest
            (reader limit [] (lines ++ (l ++ (10 ∷ []))) (bytes + 6 + length l + 1) (is_cr e) false)
  feed_line e l rest lines bytes after_cr first_line valid p h k =
      rw
        (
          feed-append is_utf8 decode id (codes "data: " ++ l) (ending e ++ rest)
              (reader limit [] lines bytes after_cr first_line),
          feed_text is_utf8 decode id limit l lines bytes after_cr first_line p (omega arith) k,
          feed-append is_utf8 decode id (ending e) rest
              (reader limit (codes "data: " ++ l) lines (bytes + 6 + length l) false first_line),
          feed_end is_utf8 decode id limit e l lines (bytes + 6 + length l) first_line valid h k,
        )
        refl

  -- What follows a result, or the line feed of its line, changes nothing.
  after_result :
      (e : Ending) (r : Result (Option Value)) (s : Events)
      → s.after_cr ≡ true
      → (continue is_utf8 decode id (r, s) (feed is_utf8 decode id (10 ∷ []))).0 ≡ r
  unfolding feed feed_byte
  after_result e (ok none) s h = rw h refl
  after_result e (ok (some v)) s h = refl
  after_result e (err x) s h = refl

  nothing_after :
      (r : Result (Option Value)) (s : Events)
      → (continue is_utf8 decode id (r, s) (feed is_utf8 decode id [])).0 ≡ r
  unfolding feed
  nothing_after (ok none) s = refl
  nothing_after (ok (some v)) s = refl
  nothing_after (err x) s = refl

  feed_blank :
      (e : Ending) (lines : Bytes) (bytes : ℕ)
      → is_utf8 [] ≡ true
      → bytes + 1 ≤ limit
      → limit < 2 ^ 64
      → (feed is_utf8 decode id
          (ending e)
          (reader limit [] (lines ++ (10 ∷ [])) bytes (is_cr e) false)).0
        ≡ decoded is_utf8 decode id lines
  unfolding feed
  feed_blank lf lines bytes valid h k =
      rw
        (
          end_byte is_utf8 decode id limit 10 [] (lines ++ (10 ∷ [])) bytes false false refl refl h
              k,
          blank_line is_utf8 decode id limit lines (bytes + 1) false valid,
        )
        (nothing_after (decoded is_utf8 decode id lines) (reader limit [] [] 0 false false))
  feed_blank cr lines bytes valid h k =
      rw
        (
          end_byte is_utf8 decode id limit 13 [] (lines ++ (10 ∷ [])) bytes true false refl refl h
              k,
          blank_line is_utf8 decode id limit lines (bytes + 1) true valid,
        )
        (nothing_after (decoded is_utf8 decode id lines) (reader limit [] [] 0 true false))
  feed_blank crlf lines bytes valid h k =
      rw
        (
          end_byte is_utf8 decode id limit 13 [] (lines ++ (10 ∷ [])) bytes false false refl refl h
              k,
          blank_line is_utf8 decode id limit lines (bytes + 1) true valid,
        )
        (after_result crlf (decoded is_utf8 decode id lines) (reader limit [] [] 0 true false) refl)

  feed_lines :
      (e : Ending) (ls : List Bytes) (lines all : Bytes) (bytes : ℕ)
      → is_utf8 [] ≡ true
      → All (IsLine is_utf8) ls
      → bytes + counted ls ≤ limit
      → limit < 2 ^ 64
      → lines ++ terminated ls ≡ all ++ (10 ∷ [])
      → (feed is_utf8 decode id (sent e ls) (reader limit [] lines bytes (is_cr e) false)).0
        ≡ decoded is_utf8 decode id all
  feed_lines e [] lines all bytes blank p h k same =
      rw (sym (append-nil lines) ∙ same) (feed_blank e all bytes blank h k)
  feed_lines e (l ∷ ls) lines all bytes blank p h k same =
      rw (feed_line e l (sent e ls) lines bytes (is_cr e) false p.0.1 p.0.0 (omega arith) k) (
        feed_lines e ls (lines ++ (l ++ (10 ∷ []))) all (bytes + 6 + length l + 1) blank p.1
          (omega arith) k
          (append_assoc lines (l ++ (10 ∷ [])) (terminated ls)
            ∙ ap (λ (x : Bytes). lines ++ x) (append_assoc l (10 ∷ []) (terminated ls))
            ∙ same))

  feed-sent :
      (e : Ending) (l : Bytes) (ls : List Bytes)
      → is_utf8 [] ≡ true
      → All (IsLine is_utf8) (l ∷ ls)
      → counted (l ∷ ls) ≤ limit
      → limit < 2 ^ 64
      → (feed is_utf8 decode id (sent e (l ∷ ls)) (new limit)).0
        ≡ decoded is_utf8 decode id (joined (l ∷ ls))
  feed-sent e l ls blank p h k =
      rw (feed_line e l (sent e ls) [] 0 false true p.0.1 p.0.0 (omega arith) k) (
        feed_lines e ls (l ++ (10 ∷ [])) (joined (l ∷ ls)) (0 + 6 + length l + 1) blank p.1
          (omega arith) k (append_assoc l (10 ∷ []) (terminated ls) ∙ terminated-joined l ls))

  -- Where a new reader is fed an event as a server sends it, cut into any chunks, each line of its
  -- data after `data: ` and a blank line at the end, all lines ended in the same of the three ways:
  -- what it gives is what becomes of the message that the lines, with a line feed between any two,
  -- decode to, if no line of the data holds a line feed or a carriage return, the lines are UTF-8,
  -- and they are within the limit, where the end of a line counts as one byte.
  pub feed_chunks-sent :
      (e : Ending) (l : Bytes) (ls chunks : List Bytes)
      → together chunks ≡ sent e (l ∷ ls)
      → is_utf8 [] ≡ true
      → All (IsLine is_utf8) (l ∷ ls)
      → counted (l ∷ ls) ≤ limit
      → limit < 2 ^ 64
      → IsAnswer id (decode (joined (l ∷ ls))) (feed_chunks is_utf8 decode id chunks (new limit)).0
  feed_chunks-sent e l ls chunks same blank p h k =
      rw
        (
          feed_chunks-joined is_utf8 decode id chunks (new limit),
          same,
          feed-sent e l ls blank p h k,
        )
        (accept_lem id (decode (joined (l ∷ ls))))

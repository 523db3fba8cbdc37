-- ===== src/Mcp/Sse/Chunks.antt =====
-- mcp/sse.rs: how a stream is cut into chunks makes no difference.
use ripmcp.Base.{◌≡◌, refl, [], ◌∷◌, ◌++◌, Option, none, some, Bool, List, sym, ◌∙◌}
use ripmcp.Base.Error.{Result, ok, err}
use ripmcp.Base.Text.{Text}
use ripmcp.Json.{Value}
use ripmcp.Mcp.Protocol.{Message}
use ripmcp.Mcp.Sse.{Events, feed, feed_byte, continue}
use ripmcp.Storage.Transaction.{Bytes}

-- The stream that is cut into these chunks.
abbrev pub together : List Bytes → Bytes
together [] = []
together (chunk ∷ chunks) = chunk ++ together chunks

module _ (is_utf8 : Bytes → Bool) (decode : Bytes → Result Message) (id : Text) where
  feed_step :
      (a b : Bytes) (p : Result (Option Value) × Events)
      → ((s : Events)
          → feed is_utf8 decode id (a ++ b) s
            ≡ continue is_utf8 decode id (feed is_utf8 decode id a s) (feed is_utf8 decode id b))
      → continue is_utf8 decode id p (feed is_utf8 decode id (a ++ b))
        ≡ continue is_utf8 decode id
            (continue is_utf8 decode id p (feed is_utf8 decode id a))
            (feed is_utf8 decode id b)
  feed_step a b (ok none, s) h = h s
  feed_step a b (ok (some v), s) h = refl
  feed_step a b (err e, s) h = refl

  -- Two chunks fed one after the other, the second only if the first gave neither a result nor an
  -- error, give what they give as one chunk, and leave the same state.
  pub feed-append :
      (a b : Bytes) (s : Events)
      → feed is_utf8 decode id (a ++ b) s
        ≡ continue is_utf8 decode id (feed is_utf8 decode id a s) (feed is_utf8 decode id b)
  unfolding feed
  feed-append [] b s = refl
  feed-append (byte ∷ a) b s = feed_step a b (feed_byte is_utf8 decode id byte s) (feed-append a b)

  -- The chunks one after the other, until one gives a result or an error.
  abbrev pub feed_chunks : List Bytes → Events → Result (Option Value) × Events
  feed_chunks [] s = (ok none, s)
  feed_chunks (chunk ∷ chunks) s =
      continue is_utf8 decode id (feed is_utf8 decode id chunk s) (feed_chunks chunks)

  go_on :
      (f g : Events → Result (Option Value) × Events) (p : Result (Option Value) × Events)
      → ((s : Events) → f s ≡ g s)
      → continue is_utf8 decode id p f ≡ continue is_utf8 decode id p g
  go_on f g (ok none, s) h = h s
  go_on f g (ok (some v), s) h = refl
  go_on f g (err e, s) h = refl

  pub feed_chunks-joined :
      (chunks : List Bytes) (s : Events)
      → feed_chunks chunks s ≡ feed is_utf8 decode id (together chunks) s
  unfolding feed
  feed_chunks-joined [] s = refl
  feed_chunks-joined (chunk ∷ chunks) s =
      go_on (feed_chunks chunks) (feed is_utf8 decode id (together chunks))
        (feed is_utf8 decode id chunk s) (feed_chunks-joined chunks)
      ∙ sym (feed-append chunk (together chunks) s)

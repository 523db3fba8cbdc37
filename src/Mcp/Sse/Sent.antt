-- ===== src/Mcp/Sse/Sent.antt =====
-- mcp/sse.rs: what a server sends of an event, and the reader of it.
use mathlib.Core.List.{append_assoc}
use ripmcp.Base.{
  ℕ, suc, ◌+◌, ◌≡◌, refl, sym, ap, ◌∙◌, Bool, true, false, ◌||◌, List, [], ◌∷◌, ◌++◌, length, arith,
  All, ◌==◌, is_empty,
}
use ripmcp.Base.Text.{codes}
use ripmcp.Mcp.Sse.{Events, pop}
use ripmcp.Storage.Transaction.{Bytes}

-- The three ways in which a line may end.
pub data Ending : Type 0 where
  lf cr crlf : Ending

abbrev pub ending : Ending → Bytes
ending lf = 10 ∷ []
ending cr = 13 ∷ []
ending crlf = 13 ∷ 10 ∷ []

abbrev pub is_cr : Ending → Bool
is_cr cr = true
is_cr _ = false

-- What a server sends of an event with these lines of data.
abbrev pub sent : Ending → List Bytes → Bytes
sent e [] = ending e
sent e (l ∷ ls) = (codes "data: " ++ l) ++ (ending e ++ sent e ls)

-- The lines with a line feed between any two.
abbrev pub joined : List Bytes → Bytes
joined [] = []
joined (l ∷ []) = l
joined (l ∷ (k ∷ ls)) = l ++ (10 ∷ joined (k ∷ ls))

-- Neither a line feed nor a carriage return.
abbrev pub IsPlain : Bytes → Type 0
IsPlain bytes = All (λ b. (b == 10 || b == 13) ≡ false) bytes

-- The lines with a line feed after each.
abbrev pub terminated : List Bytes → Bytes
terminated [] = []
terminated (l ∷ ls) = l ++ ((10 ∷ []) ++ terminated ls)

pub terminated-joined :
    (l : Bytes) (ls : List Bytes) → terminated (l ∷ ls) ≡ joined (l ∷ ls) ++ (10 ∷ [])
terminated-joined l [] = refl
terminated-joined l (k ∷ ls) =
    ap (λ (x : Bytes). l ++ ((10 ∷ []) ++ x)) (terminated-joined k ls)
    ∙ sym (append_assoc l (10 ∷ joined (k ∷ ls)) (10 ∷ []))

pub pop-append : (bytes : Bytes) (b : ℕ) → pop (bytes ++ (b ∷ [])) ≡ bytes
unfolding pop
pop-append [] b = refl
pop-append (x ∷ []) b = refl
pop-append (x ∷ (y ∷ bytes)) b = ap {B = Bytes} (λ l. x ∷ l) (pop-append (y ∷ bytes) b)

-- A line of data, as it can be sent.
abbrev pub IsLine : (Bytes → Bool) → Bytes → Type 0
IsLine is_utf8 l = IsPlain l × (is_utf8 (codes "data: " ++ l) ≡ true)

-- The bytes of an event that a reader counts.
abbrev pub counted : List Bytes → ℕ
counted [] = 1
counted (l ∷ ls) = 6 + length l + 1 + counted ls

pub not_empty : (bytes : Bytes) (b : ℕ) → is_empty (bytes ++ (b ∷ [])) ≡ false
not_empty [] b = refl
not_empty (x ∷ bytes) b = refl

pub text_length : (n : ℕ) (l : Bytes) → n + 1 + length (codes "ata: " ++ l) ≡ n + 6 + length l
text_length n l = omega arith

pub plus_zero : (n : ℕ) → n + 0 ≡ n
plus_zero n = omega arith

pub plus_suc : (n m : ℕ) → n + 1 + m ≡ n + suc m
plus_suc n m = omega arith

-- A reader that has seen no event's name.
abbrev pub reader : ℕ → Bytes → Bytes → ℕ → Bool → Bool → Events
reader limit line lines bytes after_cr first_line = record {
  line = line;
  data_ = lines;
  event = [];
  bytes = bytes;
  limit = limit;
  after_cr = after_cr;
  first_line = first_line;
}

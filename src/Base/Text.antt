-- ===== src/Base/Text.antt =====
-- Rust's strings as lists of Unicode scalar values, and byte strings as lists of bytes. UTF-8 keeps
-- the order of scalar values, so `String`'s bytewise order is the order here, and a test of every
-- byte against ASCII characters is the same test of every character.
use Prim.Native.Nat.{ℕ, ◌+◌}
use Prim.Native.Char.{code}
use Prim.Native.String.{String}
use mathlib.Core.Bool.{Bool, ◌&&◌, ◌||◌}
use mathlib.Core.List.{List, [], ◌∷◌, map}
use ripmcp.Base.Tests.{ltb, leb, ◌==◌, if◌then◌else◌}
use ripmcp.Base.Lists.{any}

abbrev pub Text : Type 0
Text = List ℕ

-- The scalar values of a literal.
abbrev pub codes : String → Text
codes String.[] = []
codes (String.◌∷◌ c s) = code c ∷ codes s

-- `str::len`: bytes of UTF-8.
abbrev utf8_width : ℕ → ℕ
utf8_width c = if ltb c 0x80 then 1 else if ltb c 0x800 then 2 else if ltb c 0x10000 then 3 else 4

abbrev pub len : Text → ℕ
len [] = 0
len (c ∷ s) = utf8_width c + len s

-- `char::is_control`: general category Cc.
abbrev pub is_control : ℕ → Bool
is_control c = ltb c 0x20 || (leb 0x7f c && leb c 0x9f)

abbrev pub contains_char : ℕ → Text → Bool
contains_char c = any (λ d. d == c)

abbrev pub is_ascii_lowercase : ℕ → Bool
is_ascii_lowercase c = leb b'a' c && leb c b'z'

abbrev pub is_ascii_uppercase : ℕ → Bool
is_ascii_uppercase c = leb b'A' c && leb c b'Z'

abbrev pub is_ascii_digit : ℕ → Bool
is_ascii_digit c = leb b'0' c && leb c b'9'

abbrev pub is_ascii_alphabetic : ℕ → Bool
is_ascii_alphabetic c = is_ascii_lowercase c || is_ascii_uppercase c

abbrev pub is_ascii_alphanumeric : ℕ → Bool
is_ascii_alphanumeric c = is_ascii_alphabetic c || is_ascii_digit c

abbrev pub is_ascii_hexdigit : ℕ → Bool
is_ascii_hexdigit c = is_ascii_digit c || (leb b'a' c && leb c b'f') || (leb b'A' c && leb c b'F')

abbrev pub to_ascii_lowercase : Text → Text
to_ascii_lowercase = map (λ c. if is_ascii_uppercase c then c + 32 else c)

-- ===== src/Auth/Challenge.antt =====
-- auth/challenge.rs: the challenges of a `www-authenticate` header. The loop has fuel; each of its
-- rounds takes at least one character, so that the length of the input is enough.
pub mod Ends
use ripmcp.Base.{
  ℕ, zero, suc, Bool, true, false, not, ◌&&◌, ◌||◌, Option, none, some, List, [], ◌∷◌, ◌++◌, any,
  all, is_empty, is_some, length, ltb, ◌==◌, if◌then◌else◌,
}
use ripmcp.Base.BTreeMap.{BTreeMap, get, contains_key}
use ripmcp.Base.BTreeMap
use ripmcp.Base.Error.{Result, ok, err, refuse, ok_or, ◌>>=◌, ◌>>◌}
use ripmcp.Base.Order.{eqb, list_ord, nat_ord}
use ripmcp.Base.Text.{Text, codes, len, is_control, is_ascii_alphanumeric, to_ascii_lowercase}
use ripmcp.Auth.Model.{invalid}

pub record Challenge : Type 0 where
  pub metadata : Option Text
  pub scope : Option Text

abbrev pub Fields : Type 0
Fields = BTreeMap Text Text

abbrev pub trim_start : (ℕ → Bool) → Text → Text
trim_start skip [] = []
trim_start skip (c ∷ text) = let rest = trim_start skip text in if skip c then rest else c ∷ text

abbrev pub is_separator : ℕ → Bool
is_separator c = c == 32 || c == 9 || c == 44

-- The text before the first character that fails the test, and the rest.
unfoldable pub span : (ℕ → Bool) → Text → Text × Text
span keep [] = ([], [])
span keep (c ∷ text) =
    let (word, rest) = span keep text in if keep c then (c ∷ word, rest) else ([], c ∷ text)

abbrev pub is_token_byte : ℕ → Bool
is_token_byte byte = is_ascii_alphanumeric byte || any (λ c. c == byte) (codes "!#$%&'*+-.^_`|~")

-- `token`
unfoldable pub token : Text → Result (Text × Text)
unfolding span
token input =
    let (word, rest) = span is_token_byte input in
    if is_empty word then err invalid else ok (word, rest)

abbrev pub longer : ℕ → Result (Text × Text) → Result (Text × Text)
longer c (ok (value, rest)) = ok (c ∷ value, rest)
longer c (err e) = err e

-- The rest of a quoted value, by whether the last character was a backslash.
unfoldable pub quoted : Bool → Text → Result (Text × Text)
quoted escaped [] = err invalid
quoted escaped (c ∷ text) =
    let plain = quoted false text in
    let after = quoted true text in
    if is_control c
    then err invalid
    else if escaped
    then longer c plain
    else if c == 92
    then after
    else if c == 34
    then ok ([], text)
    else longer c plain

-- `parameter`
unfoldable pub parameter : Text → Result (Text × Text)
unfolding token quoted
parameter [] = token []
parameter (c ∷ text) = if c == 34 then quoted false text else token (c ∷ text)

abbrev pub drop_padding : Text → Text
drop_padding [] = []
drop_padding (c ∷ text) =
    let rest = drop_padding text in if is_empty rest && c == 61 then [] else c ∷ rest

abbrev pub is_token68_byte : ℕ → Bool
is_token68_byte byte = is_ascii_alphanumeric byte || any (λ c. c == byte) (codes "-._~+/")

-- `skip_token68`
unfoldable pub skip_token68 : Text → Option Text
unfolding span
skip_token68 input =
    let (word, rest) = span (λ c. not (is_separator c)) input in
    if not (is_empty (drop_padding word)) && all is_token68_byte (drop_padding word)
    then some rest
    else none

abbrev pub or_input : Option Text → Text → Text
or_input none input = input
or_input (some rest) input = rest

abbrev pub is_bearer : Text → Bool
is_bearer word = eqb (to_ascii_lowercase word) (codes "bearer")

-- Adds a field to the challenge that came last.
unfoldable pub add_field : Text → Text → List (Text × Fields) → Result (List (Text × Fields))
add_field key value [] = err invalid
add_field key value ((scheme, fields) ∷ []) =
    if contains_key key fields
    then err invalid
    else ok ((scheme, BTreeMap.insert key value fields) ∷ [])
add_field key value (first ∷ next ∷ output) =
    add_field key value (next ∷ output) >>= λ rest. ok (first ∷ rest)

abbrev pub strip_equals : Text → Option Text
strip_equals [] = none
strip_equals (c ∷ text) = if c == 61 then some text else none

abbrev pub ends_field : Text → Bool
ends_field [] = true
ends_field (c ∷ text) = c == 44

-- The test is Unicode's, for `trim` and `trim_start`.
module _ (is_whitespace : ℕ → Bool) where
  -- A word followed by `=` is a field; any other is a scheme, whose token is skipped.
  abbrev pub after_word :
      Text → Text → Option Text → List (Text × Fields) → Result (Text × List (Text × Fields))
  after_word word input none output =
      if is_bearer word
      then ok (input, output ++ ((word, []) ∷ []))
      else ok (or_input (skip_token68 input) input, output ++ ((word, []) ∷ []))
  after_word word input (some rest) output =
      refuse (is_empty output) invalid
      >> (parameter (trim_start is_whitespace rest) >>= λ (value, rest).
          add_field (to_ascii_lowercase word) value output >>= λ output.
          refuse (not (ends_field (trim_start is_whitespace rest))) invalid
          >> ok (trim_start is_whitespace rest, output))

  -- `challenges`
  unfoldable pub challenges : ℕ → Text → List (Text × Fields) → Result (List (Text × Fields))
  unfolding token
  challenges zero input output = err invalid
  challenges (suc fuel) input output =
      if is_empty (trim_start is_whitespace input) || is_empty (trim_start is_separator input)
      then ok output
      else token (trim_start is_separator input) >>= λ (word, rest).
          after_word word (trim_start is_whitespace rest)
            (strip_equals (trim_start is_whitespace rest)) output
          >>= λ (input, output). challenges fuel input output

  abbrev pub add_challenges : Option Challenge → List (Text × Fields) → Result (Option Challenge)
  add_challenges result [] = ok result
  add_challenges result ((scheme, fields) ∷ rest) =
      let same = add_challenges result rest in
      let found =
        add_challenges
          (some (record {
            metadata = get (codes "resource_metadata") fields;
            scope = get (codes "scope") fields;
          }))
          rest in
      if not (is_bearer scheme) then same else if is_some result then err invalid else found

  -- `parse`, over the headers; `none` is one that is no text.
  unfoldable pub parse_headers : Option Challenge → List (Option Text) → Result (Option Challenge)
  unfolding challenges
  parse_headers result [] = ok result
  parse_headers result (none ∷ headers) = err invalid
  parse_headers result (some value ∷ headers) = do
    refuse (ltb 16384 (len value)) invalid
    found ← challenges (suc (length value)) value []
    next ← add_challenges result found
    parse_headers next headers

  unfoldable pub parse : List (Option Text) → Result Challenge
  unfolding parse_headers
  parse headers = parse_headers none headers >>= λ result. ok (or_default result)
    where
      or_default : Option Challenge → Challenge
      or_default none = record { metadata = none; scope = none }
      or_default (some challenge) = challenge

-- ===== src/Auth/Query.antt =====
-- auth/callback.rs: the request's target and the parameters of its query. The decoding of a query
-- and the parsing of URLs are of the `url` crate, and parameters here.
use ripmcp.Auth.Scopes.{split_space}
use ripmcp.Base.{
  ℕ, Bool, true, false, not, ◌&&◌, ◌||◌, Option, none, some, List, [], ◌∷◌, ◌++◌, any, is_empty,
  ◌==◌, if◌then◌else◌,
}
use ripmcp.Base.BTreeMap.{BTreeMap, get, contains_key}
use ripmcp.Base.BTreeMap
use ripmcp.Base.Error.{Result, ok, err, refuse, ok_or, ◌>>=◌, ◌>>◌}
use ripmcp.Base.Order.{eqb, list_ord, nat_ord}
use ripmcp.Base.Text.{Text, codes, is_control, is_ascii_hexdigit, to_ascii_lowercase}
use ripmcp.Auth.Model.{invalid}

-- Every `%` stands before two hexadecimal digits.
unfoldable pub well_escaped : Text → Bool
well_escaped [] = true
well_escaped (c ∷ text) =
    let rest = well_escaped text in if c == 37 then escape text && rest else rest
  where
    escape : Text → Bool
    escape [] = false
    escape (a ∷ []) = false
    escape (a ∷ b ∷ after) = is_ascii_hexdigit a && is_ascii_hexdigit b

unfoldable pub collect : BTreeMap Text Text → List (Text × Text) → Result (BTreeMap Text Text)
collect fields [] = ok fields
collect fields ((key, value) ∷ pairs) =
    let rest = collect (BTreeMap.insert key value fields) pairs in
    if any (λ c. c == 65533) value || any is_control value || contains_key key fields
    then err invalid
    else rest

-- `parameters`; the first argument decodes a query into its pairs.
unfoldable pub parameters : (Text → List (Text × Text)) → Text → Result (BTreeMap Text Text)
unfolding well_escaped collect
parameters decode query = do
  refuse (any (λ c. c == 35) query) invalid
  refuse (not (well_escaped query)) invalid
  collect [] (decode query)

-- `strip_prefix`
abbrev pub strip_prefix : Text → Text → Option Text
strip_prefix [] text = some text
strip_prefix (p ∷ prefix) [] = none
strip_prefix (p ∷ prefix) (c ∷ text) =
    let rest = strip_prefix prefix text in if p == c then rest else none

-- `split("\r\n")`, and `split(' ')` of the first line.
unfoldable pub split_lines : Text → List Text
split_lines [] = [] ∷ []
split_lines (c ∷ []) = (c ∷ []) ∷ []
split_lines (c ∷ d ∷ text) =
    let short = split_lines text in
    let rest = split_lines (d ∷ text) in if c == 13 && d == 10 then [] ∷ short else push c rest
  where
    push : ℕ → List Text → List Text
    push c [] = (c ∷ []) ∷ []
    push c (line ∷ lines) = (c ∷ line) ∷ lines

-- `split_once(':')`
unfoldable pub split_colon : Text → Option (Text × Text)
split_colon [] = none
split_colon (c ∷ text) =
    let rest = split_colon text in if c == 58 then some ([], text) else longer c rest
  where
    longer : ℕ → Option (Text × Text) → Option (Text × Text)
    longer c none = none
    longer c (some (key, value)) = some (c ∷ key, value)

abbrev pub is_header : Text → Text → Bool
is_header key name = eqb (to_ascii_lowercase key) name

-- The values of the host headers; `trim` is that of the standard library.
unfoldable pub hosts : (Text → Text) → List Text → Result (List Text)
hosts trim [] = ok []
hosts trim (line ∷ lines) =
    let rest = hosts trim lines in
    if is_empty line
    then rest
    else ok_or (split_colon line) invalid >>= λ (key, value).
        refuse (is_header key (codes "transfer-encoding") || is_header key (codes "content-length"))
          invalid
        >> (rest >>= λ found.
            ok (if is_header key (codes "host") then trim value ∷ found else found))

abbrev pub same_texts : List Text → List Text → Bool
same_texts [] [] = true
same_texts (a ∷ as') (b ∷ bs) = eqb a b && same_texts as' bs
same_texts _ _ = false

abbrev pub get_path : List Text → Result Text
get_path (method ∷ path ∷ version ∷ []) =
    if not (eqb method (codes "GET")) || not (eqb version (codes "HTTP/1.1"))
    then err invalid
    else ok path
get_path _ = err invalid

abbrev pub lines_after : List Text → List Text
lines_after [] = []
lines_after (line ∷ lines) = lines

abbrev pub first_line : List Text → Result Text
first_line [] = err invalid
first_line (line ∷ lines) = ok line

-- What the `url` crate and the standard library do here.
pub record TextCrates : Type 0 where
  -- the pairs of a query, decoded
  pub decode : Text → List (Text × Text)
  -- the port of a URL, in decimal, if it parses and has one
  pub port : Text → Option Text
  pub trim : Text → Text

-- `target`
unfoldable pub target : TextCrates → Text → Text → Result Text
unfolding hosts split_lines
target crates request redirect = do
  line ← first_line (split_lines request)
  path ← get_path (split_space line)
  found ← hosts crates.trim (lines_after (split_lines request))
  port ← ok_or (crates.port redirect) invalid
  refuse (not (same_texts found ((codes "127.0.0.1:" ++ port) ∷ []))) invalid
  ok path

-- ===== src/Mcp/Headers.antt =====
-- mcp/headers.rs: which arguments of a tool are mirrored into headers, and how. A header's name is
-- what the `http` crate makes of it; base64 is a parameter.
use ripmcp.Base.{
  ℕ, zero, suc, ◌+◌, ◌-◌, ◌*◌, Bool, true, false, not, ◌&&◌, ◌||◌, Option, none, some, List, [],
  ◌∷◌, ◌++◌, any, all, is_empty, length, ltb, leb, ◌==◌, if◌then◌else◌,
}
use ripmcp.Base.Error.{Error, ErrorKind, Result, new, ok, err, refuse, ok_or, ◌>>=◌, ◌>>◌}
use ripmcp.Base.Order.{eqb, list_ord, nat_ord}
use ripmcp.Base.Text.{Text, codes, is_ascii_digit}
use ripmcp.Json.{Value, Items, Fields, lookup, get, index, as_str, is_null}
use ripmcp.Mcp.Protocol.{protocol_error}

pub record Parameter : Type 0 where
  pub path : List Text
  pub name : Text
  pub kind : Text

abbrev pub argument_error : Error
argument_error = new ErrorKind.usage "tool argument cannot be mirrored into its MCP header"

abbrev pub is_mirrored : Text → Bool
is_mirrored kind =
    eqb kind (codes "string") || eqb kind (codes "integer") || eqb kind (codes "boolean")

abbrev pub nonempty : Option Text → Option Text
nonempty none = none
nonempty (some text) = if is_empty text then none else some text

module _ (header_name : Text → Option Text) where
  -- `annotation_parameter`
  unfoldable pub annotation_parameter : Value → Value → List Text → Bool → Result Parameter
  annotation_parameter schema annotation path reachable = do
    suffix ← ok_or (nonempty (as_str annotation)) protocol_error
    name ← ok_or (header_name (codes "Mcp-Param-" ++ suffix)) protocol_error
    kind ← ok_or (as_str (index schema (codes "type"))) protocol_error
    refuse (not reachable || is_empty path || not (is_mirrored kind)) protocol_error
    ok (record { path = path; name = name; kind = kind })

  -- The names that were seen are those of the parameters.
  abbrev pub add_parameter : List Parameter → Parameter → Result (List Parameter)
  add_parameter found p =
      if any (λ (q : Parameter). eqb q.name p.name) found
      then err protocol_error
      else ok (found ++ (p ∷ []))

  abbrev pub add_annotation :
      Value → Option Value → List Text → Bool → List Parameter → Result (List Parameter)
  add_annotation schema none path reachable found = ok found
  add_annotation schema (some annotation) path reachable found =
      annotation_parameter schema annotation path reachable >>= add_parameter found

  unfoldable mutual
    -- `walk`
    pub walk : Value → List Text → Bool → List Parameter → Result (List Parameter)
    walk (Value.object fields) path reachable found =
        add_annotation (Value.object fields) (lookup (codes "x-mcp-header") fields) path reachable
          found
        >>= λ next. walk_fields fields path reachable next
    walk (Value.array values) path reachable found = walk_items values path found
    walk _ path reachable found = ok found

    pub walk_items : Items → List Text → List Parameter → Result (List Parameter)
    walk_items Items.nil path found = ok found
    walk_items (Items.cons value values) path found =
        walk value path false found >>= λ next. walk_items values path next

    -- The loop over the fields of an object, each by `walk_child`.
    pub walk_fields : Fields → List Text → Bool → List Parameter → Result (List Parameter)
    walk_fields Fields.end path reachable found = ok found
    walk_fields (Fields.field key value fields) path reachable found =
        (if eqb key (codes "properties") && reachable
          then walk_properties value path found
          else walk value path false found)
        >>= λ next. walk_fields fields path reachable next

    pub walk_properties : Value → List Text → List Parameter → Result (List Parameter)
    walk_properties (Value.object properties) path found = walk_each properties path found
    walk_properties _ path found = err protocol_error

    pub walk_each : Fields → List Text → List Parameter → Result (List Parameter)
    walk_each Fields.end path found = ok found
    walk_each (Fields.field name property properties) path found =
        walk property (path ++ (name ∷ [])) true found >>= λ next. walk_each properties path next

  unfoldable pub annotations : Value → Result (List Parameter)
  annotations schema = walk schema [] true []

-- The text before the first of some characters, and what follows that character.
unfoldable pub split_once : (ℕ → Bool) → Text → Text × Option Text
split_once is_mark [] = ([], none)
split_once is_mark (c ∷ text) =
    let (before, after) = split_once is_mark text in
    if is_mark c then ([], some text) else (c ∷ before, after)

abbrev pub trim_zeros : Text → Text
trim_zeros [] = []
trim_zeros (c ∷ text) = let rest = trim_zeros text in if c == 48 then rest else c ∷ text

abbrev pub trim_end_zeros : Text → Text
trim_end_zeros [] = []
trim_end_zeros (c ∷ text) =
    let rest = trim_end_zeros text in if is_empty rest && c == 48 then [] else c ∷ rest

unfoldable pub decimal : ℕ → Text → ℕ
decimal n [] = n
decimal n (c ∷ text) = decimal (n * 10 + (c - 48)) text

-- An exponent, as its sign and its size: `parse` to 64 bits.
abbrev pub digits_of : Bool → Text → Option (Bool × ℕ)
digits_of negative text =
    if is_empty text || not (all is_ascii_digit text) || ltb 9223372036854775807 (decimal 0 text)
    then none
    else some (negative, decimal 0 text)

unfoldable pub parse_exponent : Option Text → Option (Bool × ℕ)
unfolding decimal
parse_exponent none = some (false, 0)
parse_exponent (some []) = none
parse_exponent (some (c ∷ text)) =
    if c == 45
    then digits_of true text
    else if c == 43
    then digits_of false text
    else digits_of false (c ∷ text)

-- The shift, where it is not negative.
abbrev pub shift_of : Bool × ℕ → ℕ → ℕ → Option ℕ
shift_of (true, size) decimals trailing =
    if leb (decimals + size) trailing then some (trailing - (decimals + size)) else none
shift_of (false, size) decimals trailing =
    if leb decimals (size + trailing) then some (size + trailing - decimals) else none

abbrev pub zeros : ℕ → Text
zeros zero = []
zeros (suc n) = 48 ∷ zeros n

abbrev pub or_nothing : Option Text → Text
or_nothing none = []
or_nothing (some text) = text

-- `integer` of the digits without the leading zeros, the sign apart.
unfoldable pub shifted : Text → Bool × ℕ → ℕ → Result Text
unfolding decimal
shifted significant exponent decimals =
    let trimmed = trim_end_zeros significant in
    ok_or (shift_of exponent decimals (length significant - length trimmed)) argument_error
    >>= λ shift.
        refuse
          (ltb 16 shift
            || ltb 16 (length trimmed + shift)
            || ltb 9007199254740991 (decimal 0 (trimmed ++ zeros shift)))
          argument_error
        >> ok (trimmed ++ zeros shift)

abbrev pub signed : Bool → Text → Text
signed true text = 45 ∷ text
signed false text = text

abbrev pub is_negative : Text → Bool
is_negative [] = false
is_negative (c ∷ text) = c == 45

abbrev pub unsigned : Text → Text
unsigned [] = []
unsigned (c ∷ text) = if c == 45 then text else c ∷ text

-- `integer`, of the number as it is written.
unfoldable pub integer : Text → Result Text
unfolding split_once parse_exponent shifted
integer raw =
    let (mantissa, tail) = split_once (λ c. c == 101 || c == 69) (unsigned raw) in
    let (whole, fraction) = split_once (λ c. c == 46) mantissa in
    let significant = trim_zeros (whole ++ or_nothing fraction) in
    ok_or (parse_exponent tail) argument_error >>= λ exponent.
    if is_empty significant
    then ok (codes "0")
    else shifted significant exponent (length (or_nothing fraction)) >>= λ text.
        ok (signed (is_negative raw) text)

-- `primitive`
unfoldable pub primitive : Value → Text → Result Text
unfolding integer
primitive (Value.string text) kind =
    if eqb kind (codes "string") then ok text else err argument_error
primitive (Value.bool b) kind =
    if eqb kind (codes "boolean")
    then ok (if b then codes "true" else codes "false")
    else err argument_error
primitive (Value.number raw) kind =
    if eqb kind (codes "integer") then integer raw else err argument_error
primitive _ kind = err argument_error

-- The argument at a path, if there is one.
abbrev pub descend : Option Value → Text → Option Value
descend none key = none
descend (some value) key = get value key

unfoldable pub argument_at : Option Value → List Text → Option Value
argument_at value [] = value
argument_at value (key ∷ path) = argument_at (descend value key) path

module _ (encoded : Text → Result Text) where
  abbrev pub add_header :
      Option Value → Parameter → List (Text × Text) → Result (List (Text × Text))
  add_header none p headers = ok headers
  add_header (some value) p headers =
      if is_null value
      then ok headers
      else primitive value p.kind >>= λ text.
          encoded text >>= λ header. ok ((p.name, header) ∷ headers)

  -- The loop of `tool_headers`; the last header stands first.
  unfoldable pub parameter_headers :
      Value → List Parameter → List (Text × Text) → Result (List (Text × Text))
  unfolding argument_at
  parameter_headers arguments [] headers = ok headers
  parameter_headers arguments (p ∷ ps) headers =
      add_header (argument_at (some arguments) p.path) p headers >>= λ next.
      parameter_headers arguments ps next

-- ===== src/Auth/Callback.antt =====
-- auth/callback.rs: the request that brings the code of a login back. The decoding of a query and
-- the parsing of URLs are of the `url` crate, and parameters here.
pub mod Genuine
use ripmcp.Auth.Query.{parameters, strip_prefix, target, TextCrates}
use ripmcp.Auth.Scopes.{split_space}
use ripmcp.Base.{
  ℕ, ◌+◌, Bool, true, false, not, ◌&&◌, ◌||◌, Option, none, some, List, [], ◌∷◌, ◌++◌, any, all,
  is_empty, is_some, length, ltb, leb, ◌==◌, if◌then◌else◌,
}
use ripmcp.Base.BTreeMap.{BTreeMap, get, contains_key}
use ripmcp.Base.BTreeMap
use ripmcp.Base.Error.{Error, ErrorKind, Result, new, ok, err, refuse, ok_or, ◌>>=◌, ◌>>◌}
use ripmcp.Base.Order.{eqb, list_ord, nat_ord}
use ripmcp.Base.Text.{Text, codes, len, is_control, is_ascii_hexdigit, to_ascii_lowercase}
use ripmcp.Auth.Model.{invalid, Profile}
use ripmcp.Auth.Token.{is_true}

-- `Callback`, without its listener.
pub record Callback : Type 0 where
  pub redirect : Text
  pub verifier : Text
  pub state : Text

abbrev pub check_issuer_field : Option Text → Profile → Result (Unit {0})
check_issuer_field (some issuer) profile =
    refuse (not (eqb issuer profile.authorization.issuer)) invalid
check_issuer_field none profile =
    refuse (is_true profile.authorization.authorization_response_iss_parameter_supported) invalid

abbrev pub denied : Error
denied = new ErrorKind.authentication "OAuth authorization was denied or failed"

abbrev pub same_state : Option Text → Text → Bool
same_state none state = false
same_state (some given) state = eqb given state

abbrev pub is_code : Text → Bool
is_code code = not (is_empty code) && leb (len code) 8192

abbrev pub code_of : Option Text → Result (Option Text)
code_of none = err invalid
code_of (some code) = if is_code code then ok (some code) else err invalid

-- `response`, from the fields of the query on.
unfoldable pub answer : Callback → BTreeMap Text Text → Profile → Result (Option Text)
answer callback fields profile = do
  refuse (not (same_state (get (codes "state") fields) callback.state)) invalid
  check_issuer_field (get (codes "iss") fields) profile
  refuse (contains_key (codes "error") fields)
      (if contains_key (codes "code") fields then invalid else denied)
  code_of (get (codes "code") fields)

abbrev pub answer_query : TextCrates → Callback → Profile → Option Text → Result (Option Text)
answer_query crates callback profile none = ok none
answer_query crates callback profile (some query) = do
  fields ← parameters crates.decode query
  answer callback fields profile

-- `response`
unfoldable pub response : TextCrates → Callback → Text → Profile → Result (Option Text)
unfolding target answer
response crates callback request profile = do
  path ← target crates request callback.redirect
  answer_query crates callback profile (strip_prefix (codes "/oauth/callback?") path)

-- A connection: whether it was accepted, from where, and the request if it was read in time.
pub record Connection : Type 0 where
  pub accepted : Bool
  pub is_loopback : Bool
  pub request : Option Text

-- What is done after a response: a code or an error ends the wait.
abbrev pub after_response : Result (Option Text) → Option (Result Text) → Option (Result Text)
after_response (ok (some code)) later = some (ok code)
after_response (ok none) later = later
after_response (err e) later = some (err e)

abbrev pub after_request :
    TextCrates → Callback → Profile → Option Text → Option (Result Text) → Option (Result Text)
after_request crates callback profile none later = later
after_request crates callback profile (some request) later =
    after_response (response crates callback request profile) later

-- `wait`, over the connections that come; it has no result while none of them ends it.
unfoldable pub wait : TextCrates → Callback → Profile → List Connection → Option (Result Text)
unfolding response
wait crates callback profile [] = none
wait crates callback profile (c ∷ connections) =
    let later = wait crates callback profile connections in
    if not c.accepted || not c.is_loopback
    then some (err invalid)
    else after_request crates callback profile c.request later

abbrev pub blank_line : List ℕ
blank_line = 13 ∷ 10 ∷ 13 ∷ 10 ∷ []

unfoldable pub ends_request : List ℕ → Bool
ends_request [] = false
ends_request (b ∷ bytes) =
    let rest = ends_request bytes in if eqb (b ∷ bytes) blank_line then true else rest

-- The bytes of a request, by the chunks that are read; an empty one is the end of the stream.
unfoldable pub read_request : (List ℕ → Option Text) → List ℕ → List (List ℕ) → Result Text
read_request from_utf8 bytes [] = err invalid
read_request from_utf8 bytes (chunk ∷ chunks) =
    let rest = read_request from_utf8 (bytes ++ chunk) chunks in
    if is_empty chunk || ltb 16384 (length (bytes ++ chunk))
    then err invalid
    else if ends_request (bytes ++ chunk)
    then ok_or (from_utf8 (bytes ++ chunk)) invalid
    else rest

abbrev pub reserved : List Text
reserved =
    codes "client_id"
    ∷ codes "redirect_uri"
    ∷ codes "response_type"
    ∷ codes "state"
    ∷ codes "code_challenge"
    ∷ codes "code_challenge_method"
    ∷ codes "resource"
    ∷ codes "scope"
    ∷ []

abbrev pub scope_pair : Option Text → List (Text × Text)
scope_pair none = []
scope_pair (some scope) = (codes "scope", scope) ∷ []

-- `authorization_url`, by the pairs of its query: those of the endpoint, if it parses, and those
-- that are appended. `challenge` is the encoded digest of the verifier.
unfoldable pub authorization_pairs :
    Callback → Option (List (Text × Text)) → Text → Profile → Text → Result (List (Text × Text))
authorization_pairs callback endpoint challenge profile client_id = do
  pairs ← ok_or endpoint invalid
  refuse (any (λ (name, _). any (λ r. eqb name r) reserved) pairs) invalid
  ok (
      pairs
      ++ ((codes "client_id", client_id)
          ∷ (codes "redirect_uri", callback.redirect)
          ∷ (codes "response_type", codes "code")
          ∷ (codes "state", callback.state)
          ∷ (codes "code_challenge", challenge)
          ∷ (codes "code_challenge_method", codes "S256")
          ∷ (codes "resource", profile.resource)
          ∷ scope_pair profile.scope))

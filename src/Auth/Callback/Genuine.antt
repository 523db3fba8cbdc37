-- ===== src/Auth/Callback/Genuine.antt =====
-- auth/callback.rs: only the answer to this login gives a code.
use mathlib.Core.Option.{none-ne-some, some-injective}
use mathlib.Core.Path.{subst}
use ripmcp.Base.{
  Bool, true, false, not, ◌||◌, ◌≡◌, refl, ap, ◌∙◌, ◌⊎◌, inl, inr, Option, none, some, List, [],
  ◌∷◌, if◌then◌else◌, arith,
}
use ripmcp.Base.BTreeMap.{BTreeMap, get, contains_key}
use ripmcp.Base.Error.{Result, ok, err, refuse, >>=-eq-ok, ok-injective, refuse-eq-ok}
use ripmcp.Base.Order.{eqb_iff, list_ord, nat_ord}
use ripmcp.Base.Text.{Text, codes}
use ripmcp.Auth.Model.{invalid, Profile}
use ripmcp.Auth.Callback.{
  Callback, Connection, same_state, check_issuer_field, is_code, code_of, answer, answer_query,
  response, after_response, after_request, wait,
}
use ripmcp.Auth.Query.{TextCrates, parameters, strip_prefix, target}

module _ (crates : TextCrates) (callback : Callback) (profile : Profile) (code : Text) where
  -- The request is an answer to this login, with that code.
  pub record IsGenuine (request : Text) : Type 0 where
    pub path : Text
    pub query : Text
    pub fields : BTreeMap Text Text
    pub addressed : target crates request callback.redirect ≡ ok path
    pub asked : strip_prefix (codes "/oauth/callback?") path ≡ some query
    pub parsed : parameters crates.decode query ≡ ok fields
    pub state : get (codes "state") fields ≡ some callback.state
    pub issuer : check_issuer_field (get (codes "iss") fields) profile ≡ ok tt
    pub no_error : contains_key (codes "error") fields ≡ false
    pub has_code : get (codes "code") fields ≡ some code
    pub sound : is_code code ≡ true

  not-false : {b : Bool} → not b ≡ false → b ≡ true
  not-false {b} h = ground arith

  state_lem :
      (given : Option Text) → same_state given callback.state ≡ true → given ≡ some callback.state
  state_lem none h = cc
  state_lem (some given) h = ap some ((eqb_iff given callback.state).0 h)

  code_lem :
      (given : Option Text)
      → code_of given ≡ ok (some code)
      → (given ≡ some code) × (is_code code ≡ true)
  code_lem none h = cc
  code_lem (some given) h = code_if given (is_code given) refl h
    where
      code_if :
          (given : Text) (b : Bool)
          → is_code given ≡ b
          → (if b then ok (some given) else err invalid) ≡ ok (some code)
          → (some given ≡ some code) × (is_code code ≡ true)
      code_if given true e k =
          let same : some given ≡ some code = ok-injective k in
          (same, subst (λ g. is_code g ≡ true) (some-injective _ _ same) e)
      code_if given false e k = cc

  query_lem :
      (request path : Text) (query : Option Text)
      → target crates request callback.redirect ≡ ok path
      → strip_prefix (codes "/oauth/callback?") path ≡ query
      → answer_query crates callback profile query ≡ ok (some code)
      → IsGenuine request
  unfolding answer
  query_lem request path none addressed asked h = absurd (none-ne-some _ (ok-injective h))
  query_lem request path (some query) addressed asked h =
      let (fields, parsed, h1) = >>=-eq-ok (parameters crates.decode query) _ h in
      let (u, state, h2) =
        >>=-eq-ok (refuse (not (same_state (get (codes "state") fields) callback.state)) invalid) _
          h1 in
      let (v, issuer, h3) =
        >>=-eq-ok (check_issuer_field (get (codes "iss") fields) profile) _ h2 in
      let (w, no_error, h4) = >>=-eq-ok (refuse (contains_key (codes "error") fields) _) _ h3 in
      let (has_code, sound) = code_lem (get (codes "code") fields) h4 in
      record {
        path = path;
        query = query;
        fields = fields;
        addressed = addressed;
        asked = asked;
        parsed = parsed;
        state = state_lem _ (not-false (refuse-eq-ok _ _ state));
        issuer = issuer;
        no_error = refuse-eq-ok _ _ no_error;
        has_code = has_code;
        sound = sound;
      }

  response-IsGenuine :
      (request : Text)
      → response crates callback request profile ≡ ok (some code)
      → IsGenuine request
  unfolding response answer
  response-IsGenuine request h =
      let (path, addressed, h1) = >>=-eq-ok (target crates request callback.redirect) _ h in
      query_lem request path (strip_prefix (codes "/oauth/callback?") path) addressed refl h1

  -- One of the connections comes from this machine and brings a genuine answer.
  pub IsAnswered : List Connection → Type 0
  IsAnswered [] = ⊥
  IsAnswered (c ∷ connections) =
      ((request : Text) × (c.is_loopback ≡ true) × (c.request ≡ some request) × IsGenuine request)
      ⊎ IsAnswered connections

  result_lem :
      (c : Connection) (connections : List Connection) (request : Text) (r : Result (Option Text))
      → c.is_loopback ≡ true
      → c.request ≡ some request
      → response crates callback request profile ≡ r
      → (wait crates callback profile connections ≡ some (ok code) → IsAnswered connections)
      → after_response r (wait crates callback profile connections) ≡ some (ok code)
      → IsAnswered (c ∷ connections)
  unfolding IsAnswered
  result_lem c connections request (ok (some other)) local given e later h = inl (
    request,
    local,
    given,
    response-IsGenuine request (e ∙ ap (λ x. ok (some x)) (ok-injective (some-injective _ _ h))),
  )
  result_lem c connections request (ok none) local given e later h = inr (later h)
  result_lem c connections request (err x) local given e later h = cc

  case_lem :
      (c : Connection) (connections : List Connection) (refused : Bool)
      → (not c.accepted || not c.is_loopback) ≡ refused
      → (request : Option Text) → c.request ≡ request
      → (wait crates callback profile connections ≡ some (ok code) → IsAnswered connections)
      → (if refused
          then some (err invalid)
          else after_request crates callback profile request
              (wait crates callback profile connections))
        ≡ some (ok code)
      → IsAnswered (c ∷ connections)
  unfolding IsAnswered
  case_lem c connections true e request given later h = cc
  case_lem c connections false e none given later h = inr (later h)
  case_lem c connections false e (some request) given later h =
      result_lem c connections request _ (ground arith) given refl later h

  -- A code that the wait returns was brought by a connection from this machine, in a request to the
  -- redirect's address whose query has the state of this login, an issuer that passes the check, no
  -- error, and that code, which is neither empty nor too long.
  pub wait-IsAnswered :
      (connections : List Connection)
      → wait crates callback profile connections ≡ some (ok code)
      → IsAnswered connections
  unfolding wait IsAnswered
  wait-IsAnswered [] h = cc
  wait-IsAnswered (c ∷ connections) h =
      case_lem c connections (not c.accepted || not c.is_loopback) refl c.request refl
        (wait-IsAnswered connections) h

-- ===== src/Mcp/Calls/Traces.antt =====
-- mcp/tools.rs and mcp/interaction.rs: what happens in a call, in which order.
use ripmcp.Base.{
  ◌∙◌, ℕ, zero, suc, ◌+◌, ◌≤◌, ◌≡◌, refl, Option, none, some, List, [], ◌∷◌, arith, false,
  if◌then◌else◌, not, ◌||◌, All, Bool-cases, inl, inr,
}
use ripmcp.Base.Error.{Result, ok, err, refuse}
use ripmcp.Base.Order.{eqb, list_ord, nat_ord}
use ripmcp.Base.Text.{Text, codes}
use ripmcp.Config.Url.{UrlCrate}
use ripmcp.Json.{
  Value, Fields, get, lookup, insert, remove, lookup-insert, lookup-remove, is_object,
}
use ripmcp.Mcp.Prompts.{Prompt, validate_prompt, requested_prompts, next_params, set_state}
use ripmcp.Mcp.Calls.{
  rechecked, requested, presented, Trace, Environment, note_recheck, recheck, request, present,
  present_all, remaining, asks_for_input, continue_request, call_rounds, call_params,
  call_tool_checked,
}
use ripmcp.Mcp.Prompts.Valid.{IsValidPrompt, requested_prompts-All}
use ripmcp.Mcp.Tools.{Tool, name, parse_result}
use ripmcp.Storage.Exec.{Exec, continue, lift, pure, ◌>>=◌, ◌>>◌}

-- The params name the tool, and have the arguments.
abbrev pub IsCallOf : Text → Value → Fields → Type 0
IsCallOf n arguments params =
    (lookup (codes "name") params ≡ some (Value.string n))
    × (lookup (codes "arguments") params ≡ some arguments)

abbrev pub IsRechecked : Trace → Type 0
IsRechecked (rechecked ∷ trace) = Unit
IsRechecked _ = ⊥

-- Every request comes right after a recheck and is a call of the tool with the arguments, and every
-- prompt that is presented is valid.
pub IsOrderly : UrlCrate → Text → Value → Trace → Type 0
IsOrderly U n arguments [] = Unit
IsOrderly U n arguments (rechecked ∷ trace) = IsOrderly U n arguments trace
IsOrderly U n arguments (requested params ∷ trace) =
    IsRechecked trace × IsCallOf n arguments params × IsOrderly U n arguments trace
IsOrderly U n arguments (presented p ∷ trace) =
    (validate_prompt U p ≡ ok tt) × IsOrderly U n arguments trace

pub count_requests : Trace → ℕ
count_requests [] = 0
count_requests (rechecked ∷ trace) = count_requests trace
count_requests (requested params ∷ trace) = suc (count_requests trace)
count_requests (presented p ∷ trace) = count_requests trace

-- A key that is neither of the two that `next_params` sets.
lookup-next_params :
    (j : Text) (state : Option Value) (v : Value) (params : Fields)
    → eqb j (codes "requestState") ≡ false
    → eqb j (codes "inputResponses") ≡ false
    → lookup j
        (set_state state (remove (codes "requestState") (insert (codes "inputResponses") v params)))
      ≡ lookup j params
lookup-next_params j none v params h k =
    rw
      (
        lookup-remove j (codes "requestState"),
        h,
        lookup-insert j (codes "inputResponses") v params,
        k,
      )
      refl
lookup-next_params j (some state) v params h k =
    rw
      (
        lookup-insert j (codes "requestState") state,
        h,
        lookup-remove j (codes "requestState"),
        h,
        lookup-insert j (codes "inputResponses") v params,
        k,
      )
      refl

IsCallOf-next_params :
    (n : Text) (arguments result : Value) (ps : List (Text × Prompt)) (params : Fields)
    → IsCallOf n arguments params
    → IsCallOf n arguments (next_params result ps params)
unfolding next_params
IsCallOf-next_params n arguments result ps params h = (
  lookup-next_params (codes "name") (get result (codes "requestState")) _ params refl refl ∙ h.0,
  lookup-next_params (codes "arguments") (get result (codes "requestState")) _ params refl refl
      ∙ h.1,
)

-- What holds after an action that goes on, from what holds before it.
after :
    {A B : Type 0} (P : Trace → Type 0) (r : Result A) (f : A → Exec Trace B) (trace : Trace)
    → P trace
    → ((a : A) → r ≡ ok a → P (f a trace).1)
    → P (continue r f trace).1
after P (ok a) f trace h g = g a refl
after P (err e) f trace h g = h

module _ (U : UrlCrate) (E : Environment) (n : Text) (arguments : Value) where
  -- An orderly trace with so many requests at most.
  abbrev Holds : ℕ → Trace → Type 0
  Holds c trace = IsOrderly U n arguments trace × (count_requests trace ≤ c)

  present_all-Holds :
      (c : ℕ) (ps : List (Text × Prompt)) (trace : Trace)
      → All (IsValidPrompt U) ps
      → Holds c trace
      → Holds c (present_all U E ps trace).1
  unfolding present_all present IsOrderly count_requests
  present_all-Holds c [] trace v h = h
  present_all-Holds c ((id, p) ∷ ps) trace (v, vs) h =
      after (Holds c) (E.present trace p) (λ _. present_all U E ps) (presented p ∷ trace)
        ((v, h.0), h.1) (λ _ e. present_all-Holds c ps (presented p ∷ trace) vs ((v, h.0), h.1))

  weaken : (c c' : ℕ) (trace : Trace) → c ≤ c' → Holds c trace → Holds c' trace
  weaken c c' trace k h = (h.0, omega (arith, h.1, k))

  recheck_then :
      {B : Type 0} (c c' : ℕ) (f : Unit {0} → Exec Trace B) (r : Result (Unit {0})) (trace : Trace)
      → c ≤ c'
      → Holds c trace
      → (Holds c (rechecked ∷ trace) → Holds c' (f tt (rechecked ∷ trace)).1)
      → Holds c' (continue (note_recheck r trace).0 f (note_recheck r trace).1).1
  unfolding IsOrderly count_requests
  recheck_then c c' f (ok _) trace k h g = g h
  recheck_then c c' f (err e) trace k h g = weaken c c' trace k h

  present_then :
      {B : Type 0} (c c' : ℕ) (f : Fields → Exec Trace B) (params : Fields)
      (q : Result (Unit {0}) × Trace)
      → c ≤ c'
      → Holds c q.1
      → ((trace : Trace) → Holds c trace → Holds c' (f params trace).1)
      → Holds c' ((((λ (t : Trace). q) >> pure params) >>= f) q.1).1
  present_then c c' f params (ok _, trace) k h g = g trace h
  present_then c c' f params (err e, trace) k h g = weaken c c' trace k h

  continue_request_then :
      {B : Type 0} (c c' : ℕ) (f : Fields → Exec Trace B) (result : Value) (params : Fields)
      (r : Result (List (Text × Prompt))) (trace : Trace)
      → requested_prompts U E.interactive result ≡ r
      → c ≤ c'
      → IsCallOf n arguments params
      → Holds c trace
      → ((params' : Fields) (t : Trace)
          → IsCallOf n arguments params'
          → Holds c t
          → Holds c' (f params' t).1)
      → Holds c'
          (((lift r >>= λ ps. present_all U E ps >> pure (next_params result ps params)) >>= f)
            trace).1
  continue_request_then c c' f result params (ok ps) trace e k p h g =
      present_then c c' f (next_params result ps params) (present_all U E ps trace) k
        (present_all-Holds c ps trace (requested_prompts-All U E.interactive result e) h)
        (λ t.
          g (next_params result ps params) t (IsCallOf-next_params n arguments result ps params p))
  continue_request_then c c' f result params (err x) trace e k p h g = weaken c c' trace k h

  -- The rest of a round, on the answer to its request.
  answered-Holds :
      (left c : ℕ) (params : Fields) (result : Value) (trace : Trace)
      → IsCallOf n arguments params
      → Holds c trace
      → ((params' : Fields) (t : Trace)
          → IsCallOf n arguments params'
          → Holds c t
          → Holds (c + left) (call_rounds U E left params' t).1)
      → Holds
          (c + left)
          ((if not (asks_for_input U E result) || not E.interactive
              then (remaining U E >> lift (parse_result result))
              else (recheck U E >> (continue_request U E result params >>= call_rounds U E left)))
            trace).1
  unfolding recheck continue_request
  answered-Holds left c params result trace p h more =
      elim (Bool-cases (not (asks_for_input U E result) || not E.interactive)) [
        | inl done ↦ rw done (
            after (Holds (c + left)) (E.remaining trace) (λ _. lift (parse_result result)) trace
              (weaken c (c + left) trace (omega arith) h)
              (λ _ _. weaken c (c + left) trace (omega arith) h))
        | inr asks ↦ rw asks (
            recheck_then c (c + left)
              (λ _. continue_request U E result params >>= call_rounds U E left) (E.recheck trace)
              trace (omega arith) h
              (λ k.
                continue_request_then c (c + left) (call_rounds U E left) result params
                  (requested_prompts U E.interactive result) (rechecked ∷ trace) refl (omega arith)
                  p k more))
      ]

  sent-Holds :
      (c : ℕ) (params : Fields) (trace : Trace)
      → IsCallOf n arguments params
      → Holds c trace
      → Holds (c + 1) (requested params ∷ rechecked ∷ trace)
  unfolding IsOrderly count_requests
  sent-Holds c params trace p h = ((tt, p, h.0), omega (arith, h.1))

  call_rounds-Holds :
      (left c : ℕ) (params : Fields) (trace : Trace)
      → IsCallOf n arguments params
      → Holds c trace
      → Holds (c + left) (call_rounds U E left params trace).1
  unfolding call_rounds recheck request
  call_rounds-Holds zero c params trace p h = weaken c (c + 0) trace (omega arith) h
  call_rounds-Holds (suc left) c params trace p h =
      recheck_then c (c + suc left) _ (E.recheck trace) trace (omega arith) h (λ k.
        let wide =
          weaken (c + 1) (c + suc left) (requested params ∷ rechecked ∷ trace) (omega arith)
            (sent-Holds c params trace p h) in
        after (Holds (c + suc left)) (E.request (rechecked ∷ trace) params) _
          (requested params ∷ rechecked ∷ trace) wide
          (λ result e1.
            after (Holds (c + suc left)) (E.remaining (requested params ∷ rechecked ∷ trace)) _
              (requested params ∷ rechecked ∷ trace) wide
              (λ u e2. weaken (c + 1 + left) (c + suc left) _ (omega arith) (
                answered-Holds left (c + 1) params result (requested params ∷ rechecked ∷ trace) p
                  (sent-Holds c params trace p h) (call_rounds-Holds left (c + 1))))))

IsCallOf-call_params :
    (U : UrlCrate) (E : Environment) (tool : Tool) (arguments : Value)
    → IsCallOf (name tool) arguments (call_params U E tool arguments)
unfolding lookup
IsCallOf-call_params U E tool arguments = (refl, refl)

empty-Holds :
    (U : UrlCrate) (E : Environment) (n : Text) (arguments : Value) (c : ℕ)
    → Holds U E n arguments c []
unfolding IsOrderly count_requests
empty-Holds U E n arguments c = (tt, omega arith)

-- Whatever the server, the recheck, the clock and the user do, a call from the start sends at most
-- 16 requests; each comes right after a recheck that succeeded, and its params name the tool and
-- carry the arguments of the call; every prompt that is presented is one that `Prompt::validate`
-- takes.
pub call_tool_checked-IsOrderly :
    (U : UrlCrate) (E : Environment) (headers : Result (Unit {0})) (tool : Tool) (arguments : Value)
    → IsOrderly U (name tool) arguments (call_tool_checked U E headers tool arguments []).1
      × (count_requests (call_tool_checked U E headers tool arguments []).1 ≤ 16)
unfolding call_tool_checked
call_tool_checked-IsOrderly U E headers tool arguments =
    after (Holds U E (name tool) arguments 16) (refuse (not (is_object arguments)) _) _ []
      (empty-Holds U E (name tool) arguments 16)
      (λ _ _.
        after (Holds U E (name tool) arguments 16) headers _ []
          (empty-Holds U E (name tool) arguments 16)
          (λ _ _.
            call_rounds-Holds U E (name tool) arguments 16 0 (call_params U E tool arguments) []
              (IsCallOf-call_params U E tool arguments) (empty-Holds U E (name tool) arguments 0)))

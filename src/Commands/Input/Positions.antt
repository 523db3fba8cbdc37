-- ===== src/Commands/Input/Positions.antt =====
-- call.rs: the request has every positional in its place.
use mathlib.Core.Path.{subst}
use mathlib.Core.Option.{some-injective}
use ripmcp.Base.{
  ℕ, suc, ◌≢◌, Bool, true, false, not, ◌&&◌, ◌||◌, ◌≡◌, refl, sym, ap, ◌∙◌, Option, none, some,
  List, [], ◌∷◌, ◌++◌, any, is_empty, if◌then◌else◌, length, leb, arith,
}
use mathlib.Core.List.{append-nil}
use ripmcp.Base.Error.{ok_or-eq-ok, ok, refuse, refuse-eq-ok, ok_or, >>=-eq-ok, ok-injective, ◌>>=◌}
use ripmcp.Base.Order.{eqb, eqb_iff, list_ord, nat_ord}
use ripmcp.Base.Text.{Text, codes}
use ripmcp.Commands.Input.{
  Input, Request, Call, inline, file, stdin, invalid, pop, last, read_input, into_request,
  inline_input,
}
use ripmcp.Json.{Value}

-- The server, if one is named, and the tool.
abbrev pub names_of : Request → List Text
names_of r = elim r.server [ none ↦ r.tool ∷ [] | some server ↦ server ∷ r.tool ∷ [] ]

-- The positional that gives the arguments, if any, from what the input is.
abbrev pub IsArguments : (Text → Option Value) → Option Text → Input → List Text → Type 0
IsArguments parse given (inline fields) raws =
    (given ≡ none) × ((raw : Text) × (raws ≡ raw ∷ []) × (parse raw ≡ some (Value.object fields)))
IsArguments parse given (file path) raws = (given ≡ some path) × (path ≢ codes "-") × (raws ≡ [])
IsArguments parse given stdin raws = (given ≡ some (codes "-")) × (raws ≡ [])

-- What is read off the end of the names.
abbrev listed : Text × List Text → List Text
listed (tool, rest) = elim (last (pop rest)) [ none ↦ tool ∷ [] | some server ↦ server ∷ tool ∷ [] ]

three_names : (n : ℕ) → leb (suc (suc (suc n))) 2 ≢ true
three_names n h = absurd (ground arith)

two_names :
    (names : List Text) {p : Text × List Text}
    → (not (leb 1 (length names) && leb (length names) 2) || any is_empty names) ≡ false
    → pop names ≡ some p
    → (listed p ≡ names) × (any is_empty names ≡ false)
unfolding pop
two_names [] h e = cc
two_names (a ∷ []) h e = (subst (λ p. listed p ≡ a ∷ []) (some-injective _ _ e) refl, h)
two_names (a ∷ b ∷ []) h e = (subst (λ p. listed p ≡ a ∷ b ∷ []) (some-injective _ _ e) refl, h)
two_names (a ∷ b ∷ c ∷ names) h e = absurd (three_names (length names) (ground arith))

-- The list that was taken apart.
abbrev joined : Option (Text × List Text) → List Text
joined none = []
joined (some (x, xs)) = xs ++ (x ∷ [])

pop_step :
    (x : Text) (xs : List Text) (o : Option (Text × List Text))
    → joined o ≡ xs
    → joined (elim o [ none ↦ some (x, []) | some (y, ys) ↦ some (y, x ∷ ys) ]) ≡ x ∷ xs
pop_step x xs none h = ap {B = List Text} (λ l. x ∷ l) h
pop_step x xs (some (y, ys)) h = ap {B = List Text} (λ l. x ∷ l) h

joined-pop : (names : List Text) → joined (pop names) ≡ names
unfolding pop
joined-pop [] = refl
joined-pop (x ∷ xs) = pop_step x xs (pop xs) (joined-pop xs)

module _ (parse : Text → Option Value) where
  inline_input-IsArguments :
      (raw : Text) (o : Option Value) {input : Input}
      → parse raw ≡ o
      → inline_input parse o ≡ ok input
      → IsArguments parse none input (raw ∷ [])
  inline_input-IsArguments raw none e h = cc
  inline_input-IsArguments raw (some Value.null) e h = cc
  inline_input-IsArguments raw (some (Value.bool b)) e h = cc
  inline_input-IsArguments raw (some (Value.number n)) e h = cc
  inline_input-IsArguments raw (some (Value.string t)) e h = cc
  inline_input-IsArguments raw (some (Value.array xs)) e h = cc
  inline_input-IsArguments raw (some (Value.object fields)) e h =
      subst (λ i. IsArguments parse none i (raw ∷ [])) (ok-injective h) (refl, (raw, refl, e))

  not_dash : (path : Text) → eqb path (codes "-") ≡ false → path ≢ codes "-"
  not_dash path e h = cc (e, (eqb_iff path (codes "-")).1 h)

  -- Where the positionals and the option lead.
  abbrev IsRead : Option Text → List Text → Input × List Text → Type 0
  IsRead given positionals (input, names) =
      (raws : List Text) × (positionals ≡ names ++ raws) × IsArguments parse given input raws

  IsRead-path :
      (path : Text) (names : List Text) (b : Bool)
      → eqb path (codes "-") ≡ b
      → IsRead (some path) names (if b then stdin else file path, names)
  IsRead-path path names true e =
      ([], sym (append-nil names), (ap some ((eqb_iff path (codes "-")).0 e), refl))
  IsRead-path path names false e = ([], sym (append-nil names), (refl, not_dash path e, refl))

  read_input-IsRead :
      (given : Option Text) (positionals : List Text) {found : Input × List Text}
      → read_input parse given positionals ≡ ok found
      → IsRead given positionals found
  unfolding read_input
  read_input-IsRead (some path) positionals h =
      subst (IsRead (some path) positionals) (ok-injective h)
        (IsRead-path path positionals (eqb path (codes "-")) refl)
  read_input-IsRead none positionals h =
      let ((raw, names), e, k) = >>=-eq-ok (ok_or (pop positionals) invalid) _ h in
      let (input, i, k2) = >>=-eq-ok (inline_input parse (parse raw)) (λ j. ok (j, names)) k in
      subst (IsRead none positionals) (ok-injective k2) (
        raw ∷ [],
        sym (joined-pop positionals) ∙ ap joined (ok_or-eq-ok (pop positionals) invalid e),
        inline_input-IsArguments raw (parse raw) refl i,
      )

  -- The positionals are the server, if any, the tool, and the arguments, if no option gives them.
  abbrev pub IsPlaced : Call → Request → Type 0
  IsPlaced call r =
      (raws : List Text) × (call.positionals ≡ names_of r ++ raws)
      × IsArguments parse call.input r.input raws
      × (any is_empty (names_of r) ≡ false)
      × (r.interactive ≡ call.interactive)

  -- A request that `into_request` makes has every positional in its place: they are the server, if
  -- the request has one, the tool, and then, exactly if no input option is given, one that parses
  -- to the object of the arguments; neither name is empty. The input is the standard input exactly if
  -- the option is "-", and the file that the option names exactly if it is anything else.
  pub into_request-IsPlaced :
      (call : Call) {r : Request} → into_request parse call ≡ ok r → IsPlaced call r
  unfolding into_request
  into_request-IsPlaced call h =
      let ((input, names), e, k) = >>=-eq-ok (read_input parse call.input call.positionals) _ h in
      let (_, few, k2) =
        >>=-eq-ok
          (refuse (not (leb 1 (length names) && leb (length names) 2) || any is_empty names)
            invalid)
          (λ _. ok_or (pop names) invalid >>= λ (tool, rest). ok (record {
            interactive = call.interactive;
            server = last (pop rest);
            tool = tool;
            input = input;
          }))
          k in
      let ((tool, rest), p, k3) =
        >>=-eq-ok (ok_or (pop names) invalid)
          (λ (tool, rest). ok (record {
            interactive = call.interactive;
            server = last (pop rest);
            tool = tool;
            input = input;
          }))
          k2 in
      let (raws, split, given) = read_input-IsRead call.input call.positionals e in
      let (same, full) =
        two_names names (refuse-eq-ok _ _ few) (ok_or-eq-ok (pop names) invalid p) in
      subst (IsPlaced call) (ok-injective k3) (
        raws,
        split ∙ ap (λ (l : List Text). l ++ raws) (sym same),
        given,
        ap (λ (l : List Text). any is_empty l) same ∙ full,
        refl,
      )

-- ===== src/Commands/Unique.antt =====
-- tools/mod.rs: a tool is resolved only where it is known to be unique.
use mathlib.Core.List
use mathlib.Core.Path.{subst}
use mathlib.Core.List.{append_assoc}
use ripmcp.Base.{
  Bool, true, false, not, ◌&&◌, ◌≡◌, ◌≢◌, refl, ap, ◌∙◌, List, [], ◌∷◌, All, arith, Bool-cases, inl,
  inr, if◌then◌else◌, Option, none, some, ◌++◌, ◌⊎◌, sym, is_some,
}
use ripmcp.Base.Error.{Error, Result, ok, err, kind, refuse-eq-ok, >>=-eq-ok, ok-injective, ◌>>◌}
use ripmcp.Base.Text.{Text, codes}
use ripmcp.Config.Effective.{Effective, Identity, ServerReport, reports}
use ripmcp.Json.{Value, Items, get, index, lookup, is_str, as_str}
use ripmcp.Commands.{
  append, one, array_of, is_nil, complete, same_identities, identities, enabled, failure, changed,
  answer, ask_servers, discover, candidates, only_one, resolve, is_cancelled,
}

append-nil : (xs ys : Items) → is_nil (append xs ys) ≡ (is_nil xs && is_nil ys)
unfolding append
append-nil Items.nil ys = refl
append-nil (Items.cons x xs) ys = refl

only_one-eq-ok :
    (names : List Text) {server : Text} → only_one names ≡ ok server → names ≡ server ∷ []
only_one-eq-ok [] h = cc
only_one-eq-ok (s ∷ []) h = ap {B = List Text} (λ x. x ∷ []) (ok-injective h)
only_one-eq-ok (s ∷ t ∷ names) h = cc

not-false : {b : Bool} → not b ≡ false → b ≡ true
not-false {b} h = ground arith

err-ne-ok : {A : Type 0} {a : A} (e : Error) → err e ≢ ok a
err-ne-ok e h = cc

-- The items as a list.
abbrev pub values : Items → List Value
values Items.nil = []
values (Items.cons x xs) = x ∷ values xs

values-append : (xs ys : Items) → values (append xs ys) ≡ values xs ++ values ys
unfolding append
values-append Items.nil ys = refl
values-append (Items.cons x xs) ys = ap {B = List Value} (λ l. x ∷ l) (values-append xs ys)

-- The entry has that name, and names a server.
abbrev pub is_named : Text → Value → Bool
is_named tool entry =
    is_str (index entry (codes "name")) tool && is_some (as_str (index entry (codes "server")))

-- One of the entries has that name and names the server, and no other has it and names one.
pub record IsOnly (tool server : Text) (entries : List Value) : Type 0 where
  pub before : List Value
  pub entry : Value
  pub after : List Value
  pub among : entries ≡ before ++ (entry ∷ after)
  pub named : is_str (index entry (codes "name")) tool ≡ true
  pub of_server : as_str (index entry (codes "server")) ≡ some server
  pub none_before : All (λ e. is_named tool e ≡ false) before
  pub none_after : All (λ e. is_named tool e ≡ false) after

-- What the entry adds to the names that follow.
abbrev added : Bool → Option Text → List Text → List Text
added b o rest = if b then elim o [ none ↦ rest | some s ↦ s ∷ rest ] else rest

added-eq-nil :
    (b : Bool) (o : Option Text) (rest : List Text)
    → added b o rest ≡ []
    → ((b && is_some o) ≡ false) × (rest ≡ [])
added-eq-nil true none rest h = (refl, h)
added-eq-nil true (some s) rest h = cc
added-eq-nil false o rest h = (refl, h)

added-eq-one :
    (b : Bool) (o : Option Text) (rest : List Text) {server : Text}
    → added b o rest ≡ server ∷ []
    → ((b ≡ true) × (o ≡ some server) × (rest ≡ []))
      ⊎ (((b && is_some o) ≡ false) × (rest ≡ server ∷ []))
added-eq-one true none rest h = inr (refl, h)
added-eq-one true (some s) rest h = inl (refl, cc, cc)
added-eq-one false o rest h = inr (refl, h)

candidates-All :
    (tool : Text) (entries : Items)
    → candidates tool entries ≡ []
    → All (λ e. is_named tool e ≡ false) (values entries)
unfolding candidates
candidates-All tool Items.nil h = tt
candidates-All tool (Items.cons x xs) h =
    let (other, rest) =
      added-eq-nil (is_str (index x (codes "name")) tool) (as_str (index x (codes "server")))
        (candidates tool xs) h in
    (other, candidates-All tool xs rest)

candidates-IsOnly :
    (tool : Text) {server : Text} (entries : Items)
    → candidates tool entries ≡ server ∷ []
    → IsOnly tool server (values entries)
unfolding candidates
candidates-IsOnly tool Items.nil h = cc
candidates-IsOnly tool (Items.cons x xs) h =
    elim (added-eq-one (is_str (index x (codes "name")) tool) (as_str (index x (codes "server")))
      (candidates tool xs) h) [
        | inl (name, at, rest) ↦ record {
          before = [];
          entry = x;
          after = values xs;
          among = refl;
          named = name;
          of_server = at;
          none_before = tt;
          none_after = candidates-All tool xs rest;
        }
        | inr (other, rest) ↦
            let o = candidates-IsOnly tool xs rest in
            record {
              before = x ∷ o.before;
              entry = o.entry;
              after = o.after;
              among = ap {B = List Value} (λ l. x ∷ l) o.among;
              named = o.named;
              of_server = o.of_server;
              none_before = (other, o.none_before);
              none_after = o.none_after;
            }
      ]

module _ (quote : Text → Text) (request : Text → Result Value) where
  -- Every enabled server answered, without errors, and the values are the tools of those answers.
  abbrev pub IsGathered : List ServerReport → List Value → Type 0
  IsGathered [] tools = tools ≡ []
  IsGathered (server ∷ servers) tools =
      ((server.enabled ≡ false) × IsGathered servers tools)
      ⊎ ((server.enabled ≡ true)
          × ((value : Value) × (rest : List Value) × (request server.name ≡ ok value)
              × (is_nil (array_of value (codes "errors")) ≡ true)
              × (tools ≡ values (array_of value (codes "tools")) ++ rest)
              × IsGathered servers rest))

  -- From what the loop started with.
  abbrev IsAdded : List ServerReport → Items → Items → Items × Items → Type 0
  IsAdded servers tools errors found =
      (is_nil errors ≡ true)
      × ((more : List Value) × IsGathered servers more × (values found.0 ≡ values tools ++ more))

  ask_case :
      (server : ServerReport) (servers : List ServerReport) (tools errors : Items)
      {found : Items × Items} (r : Result Value)
      → server.enabled ≡ true
      → request server.name ≡ r
      → ((ts es : Items)
          → ask_servers quote request (enabled servers) ts es ≡ ok found
          → IsAdded servers ts es found)
      → (elim r [
        | ok value ↦
            ask_servers quote request
              (enabled servers)
              (append tools (array_of value (codes "tools")))
              (append errors (array_of value (codes "errors")))
        | err e ↦
            let more =
              ask_servers quote request
                (enabled servers)
                tools
                (append errors (one (failure quote server.name e))) in
            if is_cancelled (kind e) then err e else more
      ])
        ≡ ok found
      → IsAdded (server ∷ servers) tools errors found
  ask_case server servers tools errors (ok value) on e more h =
      let (empty, (rest, gathered, same)) = more _ _ h in
      let split = append-nil errors (array_of value (codes "errors")) in
      (
        ground arith,
        (
          values (array_of value (codes "tools")) ++ rest,
          inr (on, (value, rest, e, ground arith, refl, gathered)),
          same
              ∙ (ap (λ (l : List Value). l ++ rest)
                    (values-append tools (array_of value (codes "tools")))
                  ∙ append_assoc (values tools) (values (array_of value (codes "tools"))) rest),
        ),
      )
  ask_case server servers tools errors (err x) on e more h =
      elim (Bool-cases (is_cancelled (kind x))) [
        | inl c ↦ absurd (err-ne-ok x (rw c at h))
        | inr c ↦ absurd (
            ground (
              arith,
              append-nil errors (one (failure quote server.name x)),
              (more tools (append errors (one (failure quote server.name x))) (rw c at h)).0,
            ))
      ]

  -- The errors only grow, so if there are none in the end, every server answered without any.
  ask_servers-IsAdded :
      (servers : List ServerReport) (tools errors : Items) {found : Items × Items}
      → ask_servers quote request (enabled servers) tools errors ≡ ok found
      → is_nil found.1 ≡ true
      → IsAdded servers tools errors found
  unfolding ask_servers
  ask_servers-IsAdded [] tools errors h z = (
    ap is_nil (ap (λ (p : Items × Items). p.1) (ok-injective h)) ∙ z,
    (
      [],
      refl,
      sym (ap (λ (p : Items × Items). values p.0) (ok-injective h))
          ∙ sym (List.append-nil (values tools)),
    ),
  )
  ask_servers-IsAdded (server ∷ servers) tools errors h z = elim (Bool-cases server.enabled) [
    | inl on ↦
        ask_case server servers tools errors (request server.name) on refl
          (λ ts es k. ask_servers-IsAdded servers ts es k z) (rw on at h)
    | inr off ↦
        let (empty, (more, gathered, same)) =
          ask_servers-IsAdded servers tools errors (rw off at h) z in
        (empty, (more, inl (off, gathered), same))
  ]

  -- What holds of a server that is resolved.
  pub record IsUnique (effective : Effective) (loaded : Result Effective) (tool server : Text)
      : Type 0 where
    tools : List Value
    current : Effective
    before : List Identity
    now : List Identity
    gathered : IsGathered (reports effective) tools
    reloaded : loaded ≡ ok current
    of_effective : identities effective ≡ ok before
    of_current : identities current ≡ ok now
    unchanged : same_identities before now ≡ true
    only : IsOnly tool server tools

  -- No errors in the end: there were none, and the identities are the same.
  no_errors :
      (same : Bool) (errors : Items)
      → is_nil (if same then errors else append errors (one changed)) ≡ true
      → (same ≡ true) × (is_nil errors ≡ true)
  no_errors true errors h = (refl, h)
  no_errors false errors h = absurd (ground (arith, append-nil errors (one changed), h))

  resolved :
      (effective current : Effective) (loaded : Result Effective) (tool : Text)
      (tools errors : Items) (before now : List Identity) {server : Text}
      → ask_servers quote request (enabled (reports effective)) Items.nil Items.nil
        ≡ ok (tools, errors)
      → loaded ≡ ok current
      → identities effective ≡ ok before
      → identities current ≡ ok now
      → (complete (
            answer tools
              (if same_identities before now then errors else append errors (one changed)))
          >> only_one (
              candidates tool (
                array_of
                  (answer tools
                    (if same_identities before now then errors else append errors (one changed)))
                  (codes "tools"))))
        ≡ ok server
      → IsUnique effective loaded tool server
  unfolding complete array_of index get lookup
  resolved effective current loaded tool tools errors before now {server} a l b n h =
      let (_, c, k) =
        >>=-eq-ok
          (complete (
            answer tools
              (if same_identities before now then errors else append errors (one changed))))
          (λ _. only_one (candidates tool tools)) h in
      let (same, empty) =
        no_errors (same_identities before now) errors (not-false (refuse-eq-ok _ _ c)) in
      let (_, (more, gathered, split)) =
        ask_servers-IsAdded (reports effective) Items.nil Items.nil a empty in
      record {
        tools = more;
        current = current;
        before = before;
        now = now;
        gathered = gathered;
        reloaded = l;
        of_effective = b;
        of_current = n;
        unchanged = same;
        only =
            subst (IsOnly tool server) split
              (candidates-IsOnly tool tools (only_one-eq-ok (candidates tool tools) k));
      }

  -- A server that `resolve` returns for a tool is known to be the only one: every enabled server
  -- answered, without errors, the configuration that was loaded afterwards has the same identities
  -- as before, and in the tools of all those answers, one after the other, exactly one entry has
  -- that name and names a server, which is this one.
  pub resolve-IsUnique :
      (effective : Effective) (loaded : Result Effective) (tool : Text) {server : Text}
      → resolve quote request effective loaded tool ≡ ok server
      → IsUnique effective loaded tool server
  unfolding resolve discover
  resolve-IsUnique effective loaded tool h =
      let (value, d, k) = >>=-eq-ok (discover quote request effective loaded) _ h in
      let ((tools, errors), a, d1) =
        >>=-eq-ok (ask_servers quote request (enabled (reports effective)) Items.nil Items.nil) _
          d in
      let (current, l, d2) = >>=-eq-ok loaded _ d1 in
      let (before, b, d3) = >>=-eq-ok (identities effective) _ d2 in
      let (now, n, d4) = >>=-eq-ok (identities current) _ d3 in
      resolved effective current loaded tool tools errors before now a l b n
        (rw (← ok-injective d4) at k)

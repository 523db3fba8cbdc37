-- ===== src/Auth/Challenge/Ends.antt =====
-- auth/challenge.rs: the loop over a header ends, as each round takes some of its text.
use mathlib.Core.Path.{subst}
use ripmcp.Auth.Model.{invalid}
use ripmcp.Base.{
  ℕ, zero, suc, ◌+◌, ◌≤◌, ◌<◌, Bool, true, false, not, ◌||◌, ◌≡◌, refl, ap, Option, none, some,
  List, [], ◌∷◌, is_empty, length, ◌==◌, if◌then◌else◌, arith, ◌++◌,
}
use ripmcp.Base.Error.{Result, ok, err, ◌>>=◌, >>=-eq-ok, ok-injective, refuse}
use ripmcp.Base.Text.{Text, is_control, to_ascii_lowercase}
use ripmcp.Auth.Challenge.{
  Fields, trim_start, span, is_separator, is_token_byte, token, quoted, parameter, skip_token68,
  or_input, longer, strip_equals, after_word, challenges, is_bearer, add_field, ends_field,
}

-- What is taken from a text is its beginning, so that the rest is no longer.
length-trim_start : (skip : ℕ → Bool) (text : Text) → length (trim_start skip text) ≤ length text
length-trim_start skip [] = omega arith
length-trim_start skip (c ∷ text) = ground (arith, length-trim_start skip text)

length-span :
    (keep : ℕ → Bool) (text : Text)
    → length (span keep text).0 + length (span keep text).1 ≡ length text
unfolding span
length-span keep [] = refl
length-span keep (c ∷ text) = ground (arith, length-span keep text)

-- The text that a successful reading leaves.
abbrev Leaves : ℕ → Result (Text × Text) → Type 0
Leaves n (ok (value, rest)) = length rest ≤ n
Leaves n (err e) = Unit

Leaves-if :
    (n : ℕ) (b : Bool) (r s : Result (Text × Text))
    → Leaves n r
    → Leaves n s
    → Leaves n (if b then r else s)
Leaves-if n true r s h k = h
Leaves-if n false r s h k = k

Leaves-suc : (n : ℕ) (r : Result (Text × Text)) → Leaves n r → Leaves (suc n) r
Leaves-suc n (ok (value, rest)) h = omega (arith, h)
Leaves-suc n (err e) h = tt

Leaves-longer : (n c : ℕ) (r : Result (Text × Text)) → Leaves n r → Leaves (suc n) (longer c r)
Leaves-longer n c (ok (value, rest)) h = omega (arith, h)
Leaves-longer n c (err e) h = tt

Leaves-quoted : (escaped : Bool) (text : Text) → Leaves (length text) (quoted escaped text)
unfolding quoted
Leaves-quoted escaped [] = tt
Leaves-quoted escaped (c ∷ text) =
    let n = length text in
    let plain = Leaves-longer n c _ (Leaves-quoted false text) in
    Leaves-if (suc n) (is_control c) _ _ tt (
      Leaves-if (suc n) escaped _ _ plain (
        Leaves-if (suc n) (c == 92) _ _ (Leaves-suc n _ (Leaves-quoted true text))
          (Leaves-if (suc n) (c == 34) _ _ (omega arith) plain)))

-- A token is not empty.
Shrinks-token :
    (input word rest : Text) → token input ≡ ok (word, rest) → suc (length rest) ≤ length input
unfolding token
Shrinks-token input word rest h =
    taken (span is_token_byte input).0 (span is_token_byte input).1
      (length-span is_token_byte input) h
  where
    taken :
        (w r : Text)
        → length w + length r ≡ length input
        → if◌then◌else◌ {A = Result (Text × Text)} (is_empty w) (err invalid) (ok (w, r))
          ≡ ok (word, rest)
        → suc (length rest) ≤ length input
    taken [] r e h = cc
    taken (x ∷ w) r e h =
        let same : length r ≡ length rest = ap (λ (p : Text × Text). length p.1) (ok-injective h) in
        omega (arith, e, same)

Leaves-token : (input : Text) (r : Result (Text × Text)) → token input ≡ r → Leaves (length input) r
Leaves-token input (ok (word, rest)) h = let k = Shrinks-token input word rest h in omega (arith, k)
Leaves-token input (err e) h = tt

Leaves-parameter : (input : Text) → Leaves (length input) (parameter input)
unfolding parameter
Leaves-parameter [] = Leaves-token [] _ refl
Leaves-parameter (c ∷ text) =
    Leaves-if (suc (length text)) (c == 34) _ _
      (Leaves-suc (length text) _ (Leaves-quoted false text)) (Leaves-token (c ∷ text) _ refl)

length-skip_token68 : (input : Text) → length (or_input (skip_token68 input) input) ≤ length input
unfolding skip_token68
length-skip_token68 input = ground (arith, length-span (λ c. not (is_separator c)) input)

-- Two ways to go on that agree on the result.
>>=-agree :
    {A B : Type 0} (m : Result A) (f g : A → Result B)
    → ((a : A) → m ≡ ok a → f a ≡ g a)
    → (m >>= f) ≡ (m >>= g)
>>=-agree (ok a) f g h = h a refl
>>=-agree (err e) f g h = refl

strip_equals-length :
    (input rest : Text) → strip_equals input ≡ some rest → suc (length rest) ≡ length input
strip_equals-length [] rest h = cc
strip_equals-length (c ∷ text) rest h = ground arith

module _ (is_whitespace : ℕ → Bool) where
  word_lem :
      (word input : Text) (output : List (Text × Fields)) (b : Bool) (next : Text)
      (output' : List (Text × Fields))
      → if◌then◌else◌ {A = Result (Text × List (Text × Fields))} b
          (ok (input, output ++ ((word, []) ∷ [])))
          (ok (or_input (skip_token68 input) input, output ++ ((word, []) ∷ [])))
        ≡ ok (next, output')
      → length next ≤ length input
  word_lem word input output true next output' h =
      let same : length input ≡ length next =
        ap (λ (p : Text × List (Text × Fields)). length p.0) (ok-injective h) in
      omega (arith, same)
  word_lem word input output false next output' h =
      let same : length (or_input (skip_token68 input) input) ≡ length next =
        ap (λ (p : Text × List (Text × Fields)). length p.0) (ok-injective h) in
      omega (arith, same, length-skip_token68 input)

  parameter_lem :
      (rest value after' : Text) → parameter rest ≡ ok (value, after') → length after' ≤ length rest
  parameter_lem rest value after' h = subst (Leaves (length rest)) h (Leaves-parameter rest)

  after_word_lem :
      (word input : Text) (equals : Option Text) (output output' : List (Text × Fields))
      (next : Text)
      → strip_equals input ≡ equals
      → after_word is_whitespace word input equals output ≡ ok (next, output')
      → length next ≤ length input
  after_word_lem word input none output output' next e h =
      word_lem word input output (is_bearer word) next output' h
  after_word_lem word input (some rest) output output' next e h =
      let (u, _, h1) = >>=-eq-ok (refuse (is_empty output) invalid) _ h in
      let ((value, left), read, h2) = >>=-eq-ok (parameter (trim_start is_whitespace rest)) _ h1 in
      let (out, _, h3) = >>=-eq-ok (add_field (to_ascii_lowercase word) value output) _ h2 in
      let (v, _, h4) =
        >>=-eq-ok (refuse (not (ends_field (trim_start is_whitespace left))) invalid) _ h3 in
      let same : length (trim_start is_whitespace left) ≡ length next =
        ap (λ (p : Text × List (Text × Fields)). length p.0) (ok-injective h4) in
      omega (
        arith,
        same,
        strip_equals-length input rest e,
        parameter_lem (trim_start is_whitespace rest) value left read,
        length-trim_start is_whitespace rest,
        length-trim_start is_whitespace left,
      )

  -- The loop over a header ends within its fuel: every amount above the length of the text gives
  -- the same result, as each round that goes on takes at least one character of it.
  pub challenges-fuel :
      (f g : ℕ) (input : Text) (output : List (Text × Fields))
      → length input < f
      → length input < g
      → challenges is_whitespace f input output ≡ challenges is_whitespace g input output
  unfolding challenges
  challenges-fuel zero g input output h k = absurd (omega (arith, h))
  challenges-fuel (suc f) zero input output h k = absurd (omega (arith, k))
  challenges-fuel (suc f) (suc g) input output h k =
      ap
        (λ rest.
          if is_empty (trim_start is_whitespace input) || is_empty (trim_start is_separator input)
          then ok output
          else rest)
        (>>=-agree (token (trim_start is_separator input)) _ _ (λ (word, rest) read.
          >>=-agree
            (after_word is_whitespace word (trim_start is_whitespace rest)
              (strip_equals (trim_start is_whitespace rest)) output)
            _ _
            (λ (next, output') went.
              let shorter : suc (length next) ≤ length input = omega (
                arith,
                after_word_lem word (trim_start is_whitespace rest) _ output output' next refl went,
                length-trim_start is_whitespace rest,
                Shrinks-token (trim_start is_separator input) word rest read,
                length-trim_start is_separator input,
              ) in
              challenges-fuel f g next output' (omega (arith, shorter, h))
                (omega (arith, shorter, k)))))

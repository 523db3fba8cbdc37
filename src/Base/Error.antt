-- ===== src/Base/Error.antt =====
-- error.rs: the error of every operation, and the result monad (`?` is `←`).
use Prim.Native.String.{String}
use mathlib.Core.Path.{◌≡◌, refl, ap}
use mathlib.Core.Bool.{Bool, true, false}
use mathlib.Core.Option.{Option, none, some}

pub data ErrorKind : Type 0 where
  io usage configuration connection protocol : ErrorKind
  authentication tool_result partial_failure timeout unsupported cancelled : ErrorKind

-- The message of `Error::field` is kept as the path that it quotes.
pub data Error : Type 0 where
  field : String → Error
  new : ErrorKind → String → Error

unfoldable pub kind : Error → ErrorKind
kind (field path) = ErrorKind.configuration
kind (new k message) = k

pub data Result {ℓ} (A : Type ℓ) : Type ℓ where
  ok : A → Result A
  err : Error → Result A

-- The `?` of the source.
infixl 5 ◌>>=◌
abbrev pub ◌>>=◌ {ℓ κ} : {X : Type ℓ} {Y : Type κ} → Result X → (X → Result Y) → Result Y
err failure >>= next = err failure
ok x >>= next = next x

infixl 5 ◌>>◌
abbrev pub ◌>>◌ {κ} : {Y : Type κ} → Result (Unit {0}) → Result Y → Result Y
check >> next = check >>= λ _. next

-- `if refused { return Err(e) }`
abbrev pub refuse : Bool → Error → Result (Unit {0})
refuse true e = err e
refuse false e = ok tt

-- `ok_or`
abbrev pub ok_or {ℓ} : {A : Type ℓ} → Option A → Error → Result A
ok_or none e = err e
ok_or (some a) e = ok a

abbrev pub is_ok {ℓ} : {A : Type ℓ} → Result A → Bool
is_ok (ok a) = true
is_ok (err e) = false

pub >>=-eq-ok {ℓ κ} :
    {X : Type ℓ} {Y : Type κ} (first : Result X) (next : X → Result Y) {y : Y}
    → (first >>= next) ≡ ok y
    → (x : X) × (first ≡ ok x) × (next x ≡ ok y)
>>=-eq-ok (err failure) next h = cc
>>=-eq-ok (ok x) next h = (x, refl, h)

abbrev or_else {ℓ} : {A : Type ℓ} → Result A → A → A
or_else (ok a) d = a
or_else (err e) d = d

pub ok-injective {ℓ} : {A : Type ℓ} {a b : A} → ok a ≡ ok b → a ≡ b
ok-injective {a} h = ap (λ r. or_else r a) h

pub refuse-eq-ok : (b : Bool) (e : Error) → refuse b e ≡ ok tt → b ≡ false
refuse-eq-ok true e h = cc
refuse-eq-ok false e h = refl

pub ok_or-eq-ok {ℓ} :
    {A : Type ℓ} (o : Option A) (e : Error) {a : A} → ok_or o e ≡ ok a → o ≡ some a
ok_or-eq-ok none e h = cc
ok_or-eq-ok (some a) e h = ap some (ok-injective h)

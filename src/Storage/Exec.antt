-- ===== src/Storage/Exec.antt =====
-- Fallible actions on a state: what was written before an error stays written.
use mathlib.Core.Path.{◌≡◌, refl}
use ripmcp.Base.Error.{Error, Result, ok, err}

abbrev pub Exec {ℓ} : Type ℓ → Type ℓ → Type ℓ
Exec S A = S → Result A × S

module _ {ℓ} {S A B : Type ℓ} where
  abbrev pub continue : Result A → (A → Exec S B) → Exec S B
  continue (ok a) f s = f a s
  continue (err e) f s = (err e, s)

  infixl 5 ◌>>=◌ ◌>>◌
  abbrev pub ◌>>=◌ : Exec S A → (A → Exec S B) → Exec S B
  ◌>>=◌ m f s = let (r, s') = m s in continue r f s'

  abbrev pub ◌>>◌ : Exec S A → Exec S B → Exec S B
  m >> n = m >>= λ _. n

module _ {ℓ} {S A : Type ℓ} where
  abbrev pub lift : Result A → Exec S A
  lift r s = (r, s)

  abbrev pub pure : A → Exec S A
  pure a s = (ok a, s)

module _ {S : Type 0} where
  abbrev pub modify : (S → S) → Exec S (Unit {0})
  modify f s = (ok tt, f s)

  abbrev pub get_state : Exec S S
  get_state s = (ok s, s)

-- What holds of an action that goes on after a result: on its error, and on what follows.
pub after :
    {S A B : Type 0} (P : Result B × S → Type 0) (r : Result A) (f : A → Exec S B) (s : S)
    → ((e : Error) → r ≡ err e → P (err e, s))
    → ((a : A) → r ≡ ok a → P (f a s))
    → P (continue r f s)
after P (ok a) f s h g = g a refl
after P (err e) f s h g = h e refl

-- ===== src/Common/Result.antt =====
-- `anyhow::Result`: an error is the chain of its messages, the outermost context first.
use Prim.Native.String.{String, ◌++◌ as str_append}
use mathlib.Core.Path.{◌≡◌, refl}
use mathlib.Core.List.{List, [], ◌∷◌}
use mathlib.Core.Option.{Option, none, some}

pub data Result {ℓ} (A : Type ℓ) : Type ℓ where
  err : List String → Result A
  ok : A → Result A

-- `.context(message)`
abbrev pub context {ℓ} : {A : Type ℓ} → String → Result A → Result A
context message (ok a) = ok a
context message (err e) = err (message ∷ e)

-- `Option::context(message)`
abbrev pub or_err {ℓ} : {A : Type ℓ} → String → Option A → Result A
or_err message none = err (message ∷ [])
or_err message (some a) = ok a

-- `format!("{before}{name}{after}")`
abbrev pub format : String → String → String → String
format before name after = str_append before (str_append name after)

module _ {ℓ κ} {A : Type ℓ} {B : Type κ} where
  infixl 5 ◌>>=◌
  -- `?`: what follows a call that may fail
  abbrev pub ◌>>=◌ : Result A → (A → Result B) → Result B
  err chain >>= next = err chain
  ok value >>= next = next value

  pub >>=-eq-ok :
      (first : Result A) (next : A → Result B) {result : B}
      → (first >>= next) ≡ ok result
      → (value : A) × (first ≡ ok value) × (next value ≡ ok result)
  >>=-eq-ok (err chain) next h = absurd (cc h)
  >>=-eq-ok (ok value) next h = (value, refl, h)

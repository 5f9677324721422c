-- ===== src/Base/Ends.antt =====
-- Code that ends: with a value, an error or a panic, and not by the fuel of the model.
use mathlib.Core.Path.{◌≡◌, refl}
use mathlib.Core.Logic.{◌≢◌}
use mathlib.Core.Bool.{Bool, true, false}
use mathlib.Core.Option.{Option, none, some}
use git_kmssign.Base.Tests.{if◌then◌else◌}
use git_kmssign.Base.Results.{
  Error, Result, ok, err, panic, stuck, ◌>>=◌, fail_if, or_panic, or_err, Ensures, holds, failed,
  panicked,
}

pub data Ends {ℓ} {A : Type ℓ} : Result A → Type ℓ where
  ok_ends : {a : A} → Ends (ok a)
  err_ends : {e : Error} → Ends (err e)
  panic_ends : Ends panic

module _ {ℓ} {A : Type ℓ} where
  pub Ends-ne-stuck : {r : Result A} → Ends r → r ≢ stuck
  Ends-ne-stuck ok_ends = cc
  Ends-ne-stuck err_ends = cc
  Ends-ne-stuck panic_ends = cc

  pub Ends-Ensures {κ} : {P : A → Type κ} {r : Result A} → Ensures P r → Ends r
  Ends-Ensures (holds h) = ok_ends
  Ends-Ensures failed = err_ends
  Ends-Ensures panicked = panic_ends

  pub Ends-if : (b : Bool) {x y : Result A} → Ends x → Ends y → Ends (if b then x else y)
  Ends-if true hx hy = hx
  Ends-if false hx hy = hy

  pub Ends-bind {κ} :
      {B : Type κ} {r : Result A} {f : A → Result B}
      → Ends r
      → ((a : A) → Ends (f a))
      → Ends (r >>= f)
  Ends-bind (ok_ends {a}) k = k a
  Ends-bind err_ends k = err_ends
  Ends-bind panic_ends k = panic_ends

  -- The same, where what follows ends on the value of the call.
  pub Ends-bind_value {κ} :
      {B : Type κ} {f : A → Result B} (r : Result A)
      → Ends r
      → ((a : A) → r ≡ ok a → Ends (f a))
      → Ends (r >>= f)
  Ends-bind_value (ok a) h k = k a refl
  Ends-bind_value (err e) h k = err_ends
  Ends-bind_value panic h k = panic_ends
  Ends-bind_value stuck h k = elim h [ ]

  pub Ends-or_panic : (o : Option A) → Ends (or_panic o)
  Ends-or_panic none = panic_ends
  Ends-or_panic (some a) = ok_ends

  pub Ends-or_err : (o : Option A) (e : Error) → Ends (or_err o e)
  Ends-or_err none e = err_ends
  Ends-or_err (some a) e = ok_ends

pub Ends-fail_if : (b : Bool) (e : Error) → Ends (fail_if b e)
Ends-fail_if true e = err_ends
Ends-fail_if false e = ok_ends

pub ruleset ends_rules =
    (ok_ends, err_ends, panic_ends, Ends-if, Ends-bind, Ends-or_panic, Ends-or_err, Ends-fail_if)

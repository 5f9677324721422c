-- ===== src/Base/Results.antt =====
-- The outcome of a Go call that returns a value and an error.
use Prim.Native.Nat.{ℕ}
use mathlib.Core.List.{List}
use mathlib.Core.Path.{◌≡◌, refl, subst}
use mathlib.Core.Logic.{◌≢◌}
use mathlib.Core.Bool.{Bool, true, false}
use mathlib.Core.Option.{Option, none, some}
use git_kmssign.Base.Tests.{if◌then◌else◌}

-- The errors of the modelled code, one constructor for each message of the source.
pub data Error : Type 0 where
  ber_empty length_too_long length_negative length_leading_zero length_too_large : Error
  indefinite_primitive invalid_ber : Error
  asn1_failed wrong_type no_certificate_found unsupported trailing_data bad_tag_or_class : Error
  bad_set_class bad_set_tag bad_attribute_count bad_element_count : Error
  certificate_already_added already_detached unsupported_key_algorithm : Error
  public_key_failed hash_failed signing_failed parsing_failed : Error
  signature_detached signature_not_detached no_signatures missing_signed_attrs : Error
  invalid_content_type_attribute invalid_message_digest bad_signature : Error
  certificate_expired chain_not_verified : Error
  missing_content invalid_message_imprint request_refused request_failed bad_content_type : Error
  missing_variables : List (List ℕ) → Error
  file_failed no_pem_certificates no_credential no_vault_client : Error
  nil_vault_client empty_key_name nil_leaf unsupported_key unsupported_hash : Error
  wrong_digest_length vault_failed empty_signature not_supported : Error

-- `panic` is a run-time panic (an index or slice out of range, a nil dereference); `stuck` is no
-- behaviour of the program: a loop of the model ran out of fuel.
pub data Result {ℓ} (A : Type ℓ) : Type ℓ where
  ok : A → Result A
  err : Error → Result A
  panic : Result A
  stuck : Result A

infixl 5 ◌>>◌ ◌>>=◌
abbrev pub ◌>>=◌ {ℓ κ} : {X : Type ℓ} {Y : Type κ} → Result X → (X → Result Y) → Result Y
stuck >>= next = stuck
panic >>= next = panic
err e >>= next = err e
ok x >>= next = next x

abbrev pub ◌>>◌ {ℓ κ} : {X : Type ℓ} {Y : Type κ} → Result X → Result Y → Result Y
first >> second = first >>= λ _. second

-- `if c { return err }` in front of what follows.
abbrev pub fail_if : Bool → Error → Result (Unit {0})
fail_if true e = err e
fail_if false e = ok tt

-- A value that is there, or a panic: an index expression.
abbrev pub or_panic {ℓ} : {A : Type ℓ} → Option A → Result A
or_panic none = panic
or_panic (some a) = ok a

-- `if err != nil { return err }`
abbrev pub or_err {ℓ} : {A : Type ℓ} → Option A → Error → Result A
or_err none e = err e
or_err (some a) e = ok a

-- A call that succeeded is a first call that did, and the rest.
pub >>=-eq-ok {ℓ κ} :
    {X : Type ℓ} {Y : Type κ} (call : Result X) (next : X → Result Y) {last : Y}
    → (call >>= next) ≡ ok last
    → (x : X) × (call ≡ ok x) × (next x ≡ ok last)
>>=-eq-ok stuck next same = cc
>>=-eq-ok panic next same = cc
>>=-eq-ok (err e) next same = cc
>>=-eq-ok (ok x) next same = (x, refl, same)

pub ok-injective {ℓ} : {A : Type ℓ} {a b : A} → ok a ≡ ok b → a ≡ b
ok-injective e = cc

pub or_err-eq-ok {ℓ} :
    {A : Type ℓ} (x : Option A) {a : A} (e : Error) → or_err x e ≡ ok a → x ≡ some a
or_err-eq-ok none e h = cc
or_err-eq-ok (some x) e h = cc

pub fail_if-eq-ok : (b : Bool) (e : Error) {u : Unit {0}} → fail_if b e ≡ ok u → b ≡ false
fail_if-eq-ok true e h = cc
fail_if-eq-ok false e h = refl

-- The run ends, and `P` holds of its value if it has one.
pub data Ensures {ℓ κ} {A : Type ℓ} (P : A → Type κ) : Result A → Type (ℓ ⊔ κ) where
  holds : {a : A} → P a → Ensures P (ok a)
  failed : {e : Error} → Ensures P (err e)
  panicked : Ensures P panic

module _ {ℓ κ} {A : Type ℓ} {P : A → Type κ} where
  pub Ensures-ok : {r : Result A} {a : A} → Ensures P r → r ≡ ok a → P a
  Ensures-ok (holds h) e = subst P (cc) h
  Ensures-ok failed e = cc
  Ensures-ok panicked e = cc

  pub Ensures-ne-stuck : {r : Result A} → Ensures P r → r ≢ stuck
  Ensures-ne-stuck (holds h) = cc
  Ensures-ne-stuck failed = cc
  Ensures-ne-stuck panicked = cc

  pub Ensures-if :
      (b : Bool) {x y : Result A}
      → (b ≡ true → Ensures P x)
      → (b ≡ false → Ensures P y)
      → Ensures P (if b then x else y)
  Ensures-if true hx hy = hx refl
  Ensures-if false hx hy = hy refl

  pub Ensures-weaken {κ'} :
      {Q : A → Type κ'} {r : Result A} → Ensures P r → ((a : A) → P a → Q a) → Ensures Q r
  Ensures-weaken (holds {a} h) k = holds (k a h)
  Ensures-weaken failed k = failed
  Ensures-weaken panicked k = panicked

  pub Ensures-bind {ℓ' κ'} :
      {B : Type ℓ'} {Q : B → Type κ'} {r : Result A} {f : A → Result B}
      → Ensures P r
      → ((a : A) → P a → Ensures Q (f a))
      → Ensures Q (r >>= f)
  Ensures-bind (holds {a} h) k = k a h
  Ensures-bind failed k = failed
  Ensures-bind panicked k = panicked

pub Ensures-or_panic {ℓ} : {A : Type ℓ} (o : Option A) → Ensures (λ a. o ≡ some a) (or_panic o)
Ensures-or_panic none = panicked
Ensures-or_panic (some a) = holds refl

pub Ensures-fail_if : (b : Bool) (e : Error) → Ensures (λ _. b ≡ false) (fail_if b e)
Ensures-fail_if true e = failed
Ensures-fail_if false e = holds refl

-- ===== src/Command/Run.antt =====
-- A command as a run that writes events, and then returns nil (`done`), an error (`failed`), or panics
-- (`crashed`). os.Exit(1) of main follows an error.
use git_kmssign.Base.{
  ◌≡◌, refl, sym, subst, Bool, true, false, if◌then◌else◌, List, [], ◌++◌, Option, none, some,
}
use git_kmssign.Status.Events.{Event}
use git_kmssign.Command.{Called, returned, erred, raised}

-- The errors, one for each message of the source.
pub data CommandError : Type 0 where
  bad_include_certs cannot_open_store cannot_list_identities : CommandError
  wrong_action no_user_id local_user_given detach_sign_given armor_given : CommandError
  bad_user_id no_identity no_certificate no_signer : CommandError
  cannot_open_message cannot_read_message cannot_create cannot_sign cannot_timestamp : CommandError
  no_chain cannot_set_certificates cannot_serialize cannot_write_signature : CommandError
  cannot_open_signature cannot_read_signature cannot_parse_signature : CommandError
  verification_failed : CommandError

pub data Run {ℓ} (A : Type ℓ) : Type ℓ where
  done : List Event → A → Run A
  failed : List Event → CommandError → Run A
  crashed : List Event → Run A

-- The events `before` come first.
abbrev pub after_events {ℓ} : {A : Type ℓ} → List Event → Run A → Run A
after_events before (done events a) = done (before ++ events) a
after_events before (failed events e) = failed (before ++ events) e
after_events before (crashed events) = crashed (before ++ events)

infixl 5 ◌>>◌ ◌>>=◌
abbrev pub ◌>>=◌ {ℓ κ} : {X : Type ℓ} {Y : Type κ} → Run X → (X → Run Y) → Run Y
crashed events >>= next = crashed events
failed events e >>= next = failed events e
done events x >>= next = after_events events (next x)

abbrev pub ◌>>◌ {ℓ κ} : {X : Type ℓ} {Y : Type κ} → Run X → Run Y → Run Y
first >> second = first >>= λ _. second

abbrev pub return {ℓ} : {A : Type ℓ} → A → Run A
return a = done [] a

abbrev pub write : List Event → Run (Unit {0})
write events = done events tt

-- `if err != nil { return … }`
abbrev pub or_fail {ℓ} : {A : Type ℓ} → Option A → CommandError → Run A
or_fail none e = failed [] e
or_fail (some a) e = done [] a

-- The same for a call of package cms, which may panic.
abbrev pub or_fail_call {ℓ} : {A : Type ℓ} → Called A → CommandError → Run A
or_fail_call (returned a) e = done [] a
or_fail_call erred e = failed [] e
or_fail_call raised e = crashed []

-- An index expression.
abbrev pub or_crash {ℓ} : {A : Type ℓ} → Option A → Run A
or_crash none = crashed []
or_crash (some a) = done [] a

-- A run that writes nothing and does not panic; its error is one of `Bad`.
pub data Quiet {ℓ κ} {A : Type ℓ} (Bad : CommandError → Type κ) : Run A → Type (ℓ ⊔ κ) where
  quietly : (a : A) → Quiet Bad (done [] a)
  quietly_failed : (e : CommandError) → Bad e → Quiet Bad (failed [] e)

pub after_events-[] {ℓ} : {A : Type ℓ} (r : Run A) → after_events [] r ≡ r
after_events-[] (done events a) = refl
after_events-[] (failed events e) = refl
after_events-[] (crashed events) = refl

-- What holds of the rest of the run, and of each of the errors, holds of the whole.
pub Quiet-bind {ℓ κ ℓ' κ'} :
    {A : Type ℓ} {Bad : CommandError → Type κ} {B : Type ℓ'} (P : Run B → Type κ') {f : A → Run B}
    {r : Run A}
    → Quiet Bad r
    → ((a : A) → r ≡ done [] a → P (f a))
    → ((e : CommandError) → Bad e → P (failed [] e))
    → P (r >>= f)
Quiet-bind P {f} (quietly a) good bad = subst P (sym (after_events-[] (f a))) (good a refl)
Quiet-bind P (quietly_failed e b) good bad = bad e b

pub Quiet-or_fail {ℓ κ} :
    {A : Type ℓ} {Bad : CommandError → Type κ} (o : Option A) (e : CommandError)
    → (o ≡ none → Bad e)
    → Quiet Bad (or_fail o e)
Quiet-or_fail none e b = quietly_failed e (b refl)
Quiet-or_fail (some a) e b = quietly a

pub or_fail-eq-done {ℓ} :
    {A : Type ℓ} (o : Option A) (e : CommandError) {a : A} → or_fail o e ≡ done [] a → o ≡ some a
or_fail-eq-done none e h = cc
or_fail-eq-done (some x) e h = cc

-- What holds of the error, and of the rest of the run, holds of the whole.
pub or_fail-bind {ℓ ℓ' κ} :
    {A : Type ℓ} {B : Type ℓ'} (P : Run B → Type κ) (x : Option A) (e : CommandError)
    {k : A → Run B}
    → (x ≡ none → P (failed [] e))
    → ((a : A) → x ≡ some a → P (k a))
    → P (or_fail x e >>= k)
or_fail-bind P none e bad good = bad refl
or_fail-bind P (some a) e {k} bad good = subst P (sym (after_events-[] (k a))) (good a refl)

pub if-run {ℓ κ} :
    {A : Type ℓ} (P : Run A → Type κ) (b : Bool) {r s : Run A}
    → (b ≡ true → P r)
    → (b ≡ false → P s)
    → P (if b then r else s)
if-run P true hx hy = hx refl
if-run P false hx hy = hy refl

-- What holds of the error, of a panic, and of the rest of the run, holds of the whole.
pub or_fail_call-bind {ℓ ℓ' κ} :
    {A : Type ℓ} {B : Type ℓ'} (P : Run B → Type κ) (x : Called A) (e : CommandError)
    {k : A → Run B}
    → (x ≡ erred → P (failed [] e))
    → (x ≡ raised → P (crashed []))
    → ((a : A) → x ≡ returned a → P (k a))
    → P (or_fail_call x e >>= k)
or_fail_call-bind P erred e bad broke good = bad refl
or_fail_call-bind P raised e bad broke good = broke refl
or_fail_call-bind P (returned a) e {k} bad broke good =
    subst P (sym (after_events-[] (k a))) (good a refl)

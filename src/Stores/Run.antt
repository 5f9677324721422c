-- ===== src/Stores/Run.antt =====
-- A method of a store: it changes a state, and then returns a value, an error or panics.
use git_kmssign.Base.{ℕ, ◌≡◌, refl, Bool, true, false, Option, none, some}
use git_kmssign.Base.Int.{ℤ}

-- The errors of the stores, one constructor for each message of the source, and the codes of the
-- operating system.
pub data StoreError : Type 0 where
  os_status cf_error : ℤ → StoreError
  win_error security_status : ℕ → StoreError
  creating_dictionary creating_array creating_data nil_chain nil_signature : StoreError
  no_certificate_data certificate_parsing unsupported_key_type bad_digest : StoreError
  unsupported_hash bad_private_key call_failed bad_chain nil_public_key : StoreError
  must_free_set bad_ec_signature bad_hash_size asn1_failed : StoreError

pub data Reply (A : Type 0) : Type 0 where
  done : A → Reply A
  failed : StoreError → Reply A
  crashed : Reply A

abbrev pub Run : Type 0 → Type 0 → Type 0
Run St A = St → Reply A × St

abbrev pub next : {St A B : Type 0} → Reply A × St → (A → Run St B) → Reply B × St
next (done a, st) f = f a st
next (failed e, st) f = (failed e, st)
next (crashed, st) f = (crashed, st)

infixl 5 ◌>>◌ ◌>>=◌
abbrev pub ◌>>=◌ : {St A B : Type 0} → Run St A → (A → Run St B) → Run St B
m >>= f = λ st. next (m st) f

abbrev pub ◌>>◌ : {St A B : Type 0} → Run St A → Run St B → Run St B
m >> n = m >>= λ _. n

abbrev pub give : {St A : Type 0} → A → Run St A
give a = λ st. (done a, st)

abbrev pub fail : {St A : Type 0} → StoreError → Run St A
fail e = λ st. (failed e, st)

abbrev pub crash : {St A : Type 0} → Run St A
crash = λ st. (crashed, st)

-- `if c { return err }` in front of what follows.
abbrev pub fail_if : {St : Type 0} → Bool → StoreError → Run St (Unit {0})
fail_if true e = fail e
fail_if false e = give tt

-- `if err != nil { return err }`
abbrev pub or_fail : {St A : Type 0} → Option A → StoreError → Run St A
or_fail none e = fail e
or_fail (some a) e = give a

pub next-eq-done :
    {St A B : Type 0} (r : Reply A × St) (f : A → Run St B) {b : B} {st' : St}
    → next r f ≡ (done b, st')
    → (a : A) × (st : St) × (r ≡ (done a, st)) × (f a st ≡ (done b, st'))
next-eq-done (done a, st) f h = (a, st, refl, h)
next-eq-done (failed e, st) f h = cc
next-eq-done (crashed, st) f h = cc

pub fail_if-next-eq-done :
    {St B : Type 0} (c : Bool) (e : StoreError) (f : Unit {0} → Run (St) B) (st : St) {b : B}
    {st' : St}
    → next (fail_if c e st) f ≡ (done b, st')
    → (c ≡ false) × (f tt st ≡ (done b, st'))
fail_if-next-eq-done true e f st h = cc
fail_if-next-eq-done false e f st h = (refl, h)

pub or_fail-next-eq-done :
    {St A B : Type 0} (o : Option A) (e : StoreError) (f : A → Run (St) B) (st : St) {b : B}
    {st' : St}
    → next (or_fail o e st) f ≡ (done b, st')
    → (a : A) × (o ≡ some a) × (f a st ≡ (done b, st'))
or_fail-next-eq-done none e f st h = cc
or_fail-next-eq-done (some a) e f st h = (a, refl, h)

pub reply-next-eq-done :
    {St A B : Type 0} (r : Reply A) (f : A → Run (St) B) (st : St) {b : B} {st' : St}
    → next (r, st) f ≡ (done b, st')
    → (a : A) × (r ≡ done a) × (f a st ≡ (done b, st'))
reply-next-eq-done (done a) f st h = (a, refl, h)
reply-next-eq-done (failed e) f st h = cc
reply-next-eq-done crashed f st h = cc

-- A `do` block in front of a continuation is the block with the continuation behind it.
pub next_assoc :
    {St A B C : Type 0} (r : Reply A × St) (f : A → Run (St) B) (g : B → Run (St) C)
    → next (next r f) g ≡ next r (λ a st. next (f a st) g)
next_assoc (done a, st) f g = refl
next_assoc (failed e, st) f g = refl
next_assoc (crashed, st) f g = refl

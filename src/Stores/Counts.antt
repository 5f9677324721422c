-- ===== src/Stores/Counts.antt =====
-- The references that a log acquires and releases, counted, and the methods that give back what they
-- acquire.
use git_kmssign.Base.{
  ℕ, ◌+◌, ◌≡◌, Bool, true, false, ◌==◌, if◌then◌else◌, List, [], ◌∷◌, ◌++◌, Option, none, some,
  arith,
}
use git_kmssign.Stores.Run.{
  StoreError, Reply, done, failed, crashed, Run, next, ◌>>=◌, give, fail, fail_if, or_fail,
}
use git_kmssign.Stores.System.{
  Ref, RefEvent, acquired, released, System, note, call, look, holding, get, reply,
}

-- Whether two references are the same, as a number.
abbrev pub one : Ref → Ref → ℕ
one r x = if r == x then 1 else 0

abbrev pub count : Ref → List Ref → ℕ
count r [] = 0
count r (x ∷ refs) = one r x + count r refs

abbrev pub acquisitions : Ref → List RefEvent → ℕ
acquisitions r [] = 0
acquisitions r (acquired x ∷ log) = one r x + acquisitions r log
acquisitions r (released x ∷ log) = acquisitions r log

abbrev pub releases : Ref → List RefEvent → ℕ
releases r [] = 0
releases r (acquired x ∷ log) = releases r log
releases r (released x ∷ log) = one r x + releases r log

pub acquisitions-append :
    (r : Ref) (l k : List RefEvent) → acquisitions r (l ++ k) ≡ acquisitions r l + acquisitions r k
acquisitions-append r [] k = omega arith
acquisitions-append r (acquired x ∷ l) k = omega (arith, acquisitions-append r l k)
acquisitions-append r (released x ∷ l) k = acquisitions-append r l k

pub releases-append :
    (r : Ref) (l k : List RefEvent) → releases r (l ++ k) ≡ releases r l + releases r k
releases-append r [] k = omega arith
releases-append r (acquired x ∷ l) k = releases-append r l k
releases-append r (released x ∷ l) k = omega (arith, releases-append r l k)

abbrev pub held : Ref → Option Ref → ℕ
held r none = 0
held r (some x) = one r x

module _ {S I : Type 0} (owns : Ref → I → ℕ) where
  -- What was acquired was released, but for what the receiver owns and the references of a list.
  abbrev pub Balanced : List Ref → System S I → Type 0
  Balanced refs st =
      (r : Ref) → acquisitions r st.log ≡ releases r st.log + owns r st.this + count r refs

  -- A method that gives back what it acquires, with every result.
  pub record Keeps {A : Type 0} (m : Run (System S I) A) : Type 0 where
    pub keeps_lem : (refs : List Ref) (st : System S I) → Balanced refs st → Balanced refs (m st).1

  Keeps-next :
      {A B : Type 0} (m : Reply A × System S I) (f : A → Run (System S I) B) (refs : List Ref)
      → ((a : A) → Keeps (f a))
      → Balanced refs m.1
      → Balanced refs (next m f).1
  Keeps-next (done a, st) f refs k b = (k a).keeps_lem refs st b
  Keeps-next (failed e, st) f refs k b = b
  Keeps-next (crashed, st) f refs k b = b

  pub Keeps-bind :
      {A B : Type 0} {m : Run (System S I) A} {f : A → Run (System S I) B}
      → Keeps m
      → ((a : A) → Keeps (f a))
      → Keeps (m >>= f)
  Keeps-bind {m} {f} h k = record {
    keeps_lem = λ refs st b. Keeps-next (m st) f refs k (h.keeps_lem refs st b);
  }

  pub Keeps-give : {A : Type 0} {a : A} → Keeps (give a)
  Keeps-give = record { keeps_lem = λ refs st b. b }

  pub Keeps-fail : {A : Type 0} {e : StoreError} → Keeps (fail {A = A} e)
  Keeps-fail = record { keeps_lem = λ refs st b. b }

  pub Keeps-fail_if : (c : Bool) (e : StoreError) → Keeps (fail_if c e)
  Keeps-fail_if true e = Keeps-fail
  Keeps-fail_if false e = Keeps-give

  pub Keeps-or_fail : {A : Type 0} (o : Option A) (e : StoreError) → Keeps (or_fail o e)
  Keeps-or_fail none e = Keeps-fail
  Keeps-or_fail (some a) e = Keeps-give

  pub Keeps-call : {A : Type 0} (f : S → A × S) → Keeps (call f)
  Keeps-call f = record { keeps_lem = λ refs st b. b }

  pub Keeps-look : {A : Type 0} (f : S → A) → Keeps (look f)
  Keeps-look f = record { keeps_lem = λ refs st b. b }

  pub Keeps-get : Keeps get
  Keeps-get = record { keeps_lem = λ refs st b. b }

  pub Keeps-reply : {A : Type 0} {a : Reply A} → Keeps (reply a)
  Keeps-reply = record { keeps_lem = λ refs st b. b }

  -- A reference that is released at the end.
  pub Keeps-holding :
      {A : Type 0} {x : Ref} {m : Run (System S I) A} → Keeps m → Keeps (holding x m)
  Keeps-holding {x} {m} h = record {
    keeps_lem = λ refs st b.
        let inner = h.keeps_lem (x ∷ refs) (note (acquired x) st) (λ r. omega (
          arith,
          acquisitions-append r st.log (acquired x ∷ []),
          releases-append r st.log (acquired x ∷ []),
          b r,
        )) in
        λ r. omega (
          arith,
          acquisitions-append r (m (note (acquired x) st)).1.log (released x ∷ []),
          releases-append r (m (note (acquired x) st)).1.log (released x ∷ []),
          inner r,
        );
  }

  pub Keeps-if :
      {A : Type 0} (c : Bool) {m n : Run (System S I) A}
      → Keeps m
      → Keeps n
      → Keeps (if c then m else n)
  Keeps-if true h k = h
  Keeps-if false h k = k

pub ruleset keeps_rules = (
  Keeps-bind, Keeps-give, Keeps-fail, Keeps-fail_if, Keeps-or_fail, Keeps-call, Keeps-look,
  Keeps-get, Keeps-reply, Keeps-holding, Keeps-if,
)

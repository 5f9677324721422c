-- ===== src/Stores/System.antt =====
-- A system whose calls change a state, with a log of the references that are acquired and released, and
-- the receiver of a method. The methods of a store run with anything in its place.
use git_kmssign.Base.{ℕ, ◌≡◌, List, [], ◌∷◌, ◌++◌}
use git_kmssign.Stores.Run.{Reply, done, failed, crashed, Run}

-- A reference to an object of the system.
abbrev pub Ref : Type 0
Ref = ℕ

pub data RefEvent : Type 0 where
  acquired released : Ref → RefEvent

pub record System (S I : Type 0) : Type 0 where
  pub os : S
  pub log : List RefEvent
  pub this : I

module _ {S I : Type 0} where
  abbrev pub note : RefEvent → System S I → System S I
  note e st = record st { log = st.log ++ (e ∷ []) }

  -- A call of the system.
  abbrev pub call : {A : Type 0} → (S → A × S) → Run (System S I) A
  call f st = let (a, s) = f st.os in (done a, record st { os = s })

  abbrev pub look : {A : Type 0} → (S → A) → Run (System S I) A
  look f st = (done (f st.os), st)

  abbrev pub let_go : {A : Type 0} → Ref → Reply A × System S I → Reply A × System S I
  let_go r (a, st) = (a, note (released r) st)

  -- A reference that the caller owns, with a deferred release for what follows.
  abbrev pub holding : {A : Type 0} → Ref → Run (System S I) A → Run (System S I) A
  holding r body st = let_go r (body (note (acquired r) st))

  abbrev pub acquire : Ref → Run (System S I) (Unit {0})
  acquire r st = (done tt, note (acquired r) st)

  abbrev pub release : Ref → Run (System S I) (Unit {0})
  release r st = (done tt, note (released r) st)

  abbrev pub get : Run (System S I) I
  get st = (done st.this, st)

  abbrev pub update : (I → I) → Run (System S I) (Unit {0})
  update f st = (done tt, record st { this = f st.this })

  abbrev pub reply : {A : Type 0} → Reply A → Run (System S I) A
  reply r st = (r, st)

  pub let_go-eq-done :
      {A : Type 0} (x : Ref) (r : Reply A × System S I) {a : A} {st' : System S I}
      → let_go x r ≡ (done a, st')
      → (st : System S I) × (r ≡ (done a, st))
  let_go-eq-done x (done b, st) h = (st, cc)
  let_go-eq-done x (failed e, st) h = cc
  let_go-eq-done x (crashed, st) h = cc

-- ===== src/Ber/Complete.antt =====
-- readObject and BER2DER of ietf-cms/protocol/ber.go on inputs that are valid BER: every encoding of
-- an object is read as that object, and what follows it is not looked at.
use git_kmssign.Base.{
  ℕ, suc, ◌+◌, ◌-◌, ◌≤◌, ◌<◌, ◌≡◌, refl, ap, ◌≢◌, ◌⊎◌, inl, inr, true, false, [], ◌∷◌, ◌++◌, Bytes,
  length, drop, arith, ok, length-of_drop, length-append, append-nil, append_assoc, drop-append,
}
use git_kmssign.Ber.{
  Asn1Object, Asn1Objects, nil, encode, read_object, read_sub_objects, ber2der, fuel_for,
}
use git_kmssign.Ber.Format.{
  NoMarks, NonEmpty, Encodes, of_primitive, definite, indefinite, EncodesAll, none_left, one_more,
  IsTag-pos, IsLength-pos,
}
use git_kmssign.Ber.Read.{is_indefinite_termination-mark, is_indefinite_termination-NonZero}
use git_kmssign.Ber.Rounds.{
  Encodes-Starts, Encodes-length, read_object-primitive, read_object-definite,
  read_object-indefinite, round_definite, round_indefinite, last_indefinite, round_end, within,
}

-- After a sub-object either nothing is left, or one that does not look like the mark.
next_sub_object :
    {os : Asn1Objects} {cs : Bytes}
    → EncodesAll os cs
    → NoMarks os
    → ((os ≡ nil) × (cs ≡ []))
      ⊎ (NonEmpty os × ((b : ℕ) × (c : ℕ) × (r : Bytes) × (cs ≡ b ∷ c ∷ r) × (b ≢ 0)))
next_sub_object none_left nm = inl (refl, refl)
next_sub_object (one_more {cs = cs} d es eq) nm =
    let (b, c, r, e, nz) = Encodes-Starts d in inr (tt, (b, c, r ++ cs, rw (eq, e) refl, nz nm.0))

append_assoc₃ : (t ls c rest : Bytes) → (t ++ (ls ++ c)) ++ rest ≡ t ++ (ls ++ (c ++ rest))
append_assoc₃ t ls c rest = simp append_assoc

append_mark :
    (t cs rest : Bytes)
    → (t ++ (0x80 ∷ (cs ++ (0 ∷ 0 ∷ [])))) ++ rest ≡ t ++ (0x80 ∷ (cs ++ (0 ∷ 0 ∷ rest)))
append_mark t cs rest = simp append_assoc

omega_room :
    (ber t ls rest : Bytes) (off : ℕ)
    → length ber ≡ off + length (t ++ (ls ++ rest))
    → off + length t + length ls ≤ length ber
omega_room ber t ls rest off e = omega (arith, length-append t (ls ++ rest), length-append ls rest)

mutual
  pub read_object-Encodes :
      {o : Asn1Object} {bs : Bytes}
      → Encodes o bs
      → (f : ℕ) (ber : Bytes) (off : ℕ) (rest : Bytes) → off ≤ length ber
      → drop off ber ≡ bs ++ rest
      → length ber + 2 ≤ f + off
      → read_object f ber off ≡ ok (o, off + length bs)
  read_object-Encodes (of_primitive {t} {ls} {c} {n = n} tg e len eq) f ber off rest le at fuel =
      let e' : f ≡ suc (f - 1) = omega arith in
      let at' = rw (eq, append_assoc₃) at at in
      let size : off + length t + length ls + n ≡ off + length (t ++ (ls ++ c)) =
        omega (arith, length-append t (ls ++ c), length-append ls c) in
      rw (e', eq)
        (rw (← size) (read_object-primitive (f - 1) ber t ls c rest off n tg e len le at'))
  read_object-Encodes (definite {t} {ls} {cs} tg es len eq) f ber off rest le at fuel =
      let e' : f ≡ suc (f - 1) = omega arith in
      let at' = rw (eq, append_assoc₃) at at in
      let at₁ = drop-append off ber t _ (off + length t) at' refl in
      let at₂ = drop-append _ ber ls _ (off + length t + length ls) at₁ refl in
      let total = length-of_drop off ber _ le at' in
      let room = omega_room ber t ls (cs ++ rest) off total in
      let more = IsTag-pos tg in
      let more' = IsLength-pos len in
      let size : off + length t + length ls + length cs ≡ off + length (t ++ (ls ++ cs)) =
        omega (arith, length-append t (ls ++ cs), length-append ls cs) in
      let sub =
        read_sub_objects-definite es (f - 1) ber (off + length t + length ls) _ rest room at₂ refl
          (omega arith) in
      rw (e', eq)
        (rw (← size) (
          read_object-definite (f - 1) ber t ls (cs ++ rest) off (length cs) tg len le at'
            (within ber t ls cs rest off le at') sub))
  read_object-Encodes (indefinite {t} {cs} tg es ne nm eq) f ber off rest le at fuel =
      let e' : f ≡ suc (f - 1) = omega arith in
      let at' = rw (eq, append_mark) at at in
      let at₁ = drop-append off ber t _ (off + length t) at' refl in
      let at₂ = drop-append _ ber (0x80 ∷ []) _ (off + length t + 1) at₁ (omega arith) in
      let total = length-of_drop off ber _ le at' in
      let room = omega_room ber t (0x80 ∷ []) (cs ++ (0 ∷ 0 ∷ rest)) off total in
      let more = IsTag-pos tg in
      let size : off + length t + 1 + length cs + 2
          ≡ off + length (t ++ (0x80 ∷ (cs ++ (0 ∷ 0 ∷ [])))) =
        omega
          (arith, length-append t (0x80 ∷ (cs ++ (0 ∷ 0 ∷ []))), length-append cs (0 ∷ 0 ∷ [])) in
      let sub =
        read_sub_objects-indefinite es ne nm (f - 1) ber (off + length t + 1)
          (off + length t + 1 + 0) rest room at₂ (omega arith) in
      rw (e', eq) (rw (← size) (read_object-indefinite (f - 1) ber t _ off tg le at' sub))

  read_sub_objects-definite :
      {os : Asn1Objects} {cs : Bytes}
      → EncodesAll os cs
      → (f : ℕ) (ber : Bytes) (off content_end : ℕ) (rest : Bytes) → off ≤ length ber
      → drop off ber ≡ cs ++ rest
      → content_end ≡ off + length cs
      → length ber + 3 ≤ f + off
      → read_sub_objects f ber off content_end false ≡ ok (os, off + length cs)
  read_sub_objects-definite none_left f ber off content_end rest le at e fuel =
      let e' : f ≡ suc (f - 1) = omega arith in
      let e'' : off + 0 ≡ off = omega arith in
      rw (e', e'') (round_end (f - 1) ber off content_end (omega arith))
  read_sub_objects-definite (one_more {bs = bs} {cs} d es eq) f ber off content_end rest le at e
        fuel =
      let e' : f ≡ suc (f - 1) = omega arith in
      let two = Encodes-length d in
      let at' = rw (eq, append_assoc) at at in
      let at₁ = drop-append off ber bs _ (off + length bs) at' refl in
      let total = length-of_drop off ber _ le at' in
      let sizes = length-append bs (cs ++ rest) in
      let size' = length-append bs cs in
      let len = ap length eq in
      let one = read_object-Encodes d (f - 1) ber off (cs ++ rest) le at' (omega arith) in
      let others =
        read_sub_objects-definite es (f - 1) ber (off + length bs) content_end rest (omega arith)
          at₁ (omega arith) (omega arith) in
      let size : off + length bs + length cs ≡ off + length (bs ++ cs) = omega arith in
      rw (e', eq)
        (rw (← size)
          (round_definite (f - 1) ber off (off + length bs) _ content_end (omega arith) one others))

  read_sub_objects-indefinite :
      {os : Asn1Objects} {cs : Bytes}
      → EncodesAll os cs
      → NonEmpty os
      → NoMarks os
      → (f : ℕ) (ber : Bytes) (off content_end : ℕ) (rest : Bytes) → off ≤ length ber
      → drop off ber ≡ cs ++ (0 ∷ 0 ∷ rest)
      → length ber + 3 ≤ f + off
      → read_sub_objects f ber off content_end true ≡ ok (os, off + length cs)
  read_sub_objects-indefinite none_left ne nm f ber off content_end rest le at fuel = elim ne [ ]
  read_sub_objects-indefinite (one_more {os = os} {bs} {cs} d es eq) ne nm f ber off content_end
        rest le at fuel =
      let e' : f ≡ suc (f - 1) = omega arith in
      let two = Encodes-length d in
      let at' = rw (eq, append_assoc) at at in
      let at₁ = drop-append off ber bs _ (off + length bs) at' refl in
      let total = length-of_drop off ber _ le at' in
      let sizes = length-append bs (cs ++ (0 ∷ 0 ∷ rest)) in
      let one = read_object-Encodes d (f - 1) ber off (cs ++ (0 ∷ 0 ∷ rest)) le at' (omega arith) in
      let size : off + length bs + length cs ≡ off + length (bs ++ cs) =
        omega (arith, length-append bs cs) in
      let others = λ (more : NonEmpty os).
        read_sub_objects-indefinite es more nm.1 (f - 1) ber (off + length bs) content_end rest
          (omega arith) at₁ (omega arith) in
      rw (e', eq)
        (elim (next_sub_object es nm.1) [
          | inl (none, nothing) ↦
              rw (none, nothing, append-nil)
                (last_indefinite (f - 1) ber off _ content_end one
                  (is_indefinite_termination-mark ber _ rest (omega arith) (rw nothing at at₁)))
          | inr (more, (b, c, r, e, nz)) ↦ rw (← size) (
              round_indefinite (f - 1) ber off (off + length bs) _ content_end one
                (is_indefinite_termination-NonZero ber _ b c (r ++ (0 ∷ 0 ∷ rest)) (omega arith)
                  (rw e at at₁) nz)
                (others more))
        ])

pub ber2der_step :
    (ber : Bytes) {o : Asn1Object} {e : ℕ}
    → 0 < length ber
    → read_object (fuel_for ber) ber 0 ≡ ok (o, e)
    → ber2der ber ≡ ok (encode o)
unfolding ber2der
ber2der_step [] pos h = absurd (omega arith)
ber2der_step (b ∷ ber) pos h = ground (arith, h)

-- BER2DER returns the DER encoding of the object that its input starts with, whatever encoding of the
-- object that is (as Format describes them, definite or indefinite, with short or long lengths), and
-- whatever follows.
pub ber2der-Encodes :
    (o : Asn1Object) (bs rest : Bytes) → Encodes o bs → ber2der (bs ++ rest) ≡ ok (encode o)
ber2der-Encodes o bs rest d =
    let two = Encodes-length d in
    let len = length-append bs rest in
    ber2der_step (bs ++ rest) (omega arith) (
      read_object-Encodes d (fuel_for (bs ++ rest)) (bs ++ rest) 0 rest (omega arith) refl
        (omega arith))

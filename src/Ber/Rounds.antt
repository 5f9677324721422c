-- ===== src/Ber/Rounds.antt =====
-- One call of readObject, and one round of its loop over sub-objects (ietf-cms/protocol/ber.go),
-- on an input that is valid BER where they stand.
use git_kmssign.Base.{
  ℕ, suc, ◌+◌, ◌≤◌, ◌<◌, ◌≡◌, refl, ◌≢◌, Bool, true, false, [], ◌∷◌, ◌++◌, Bytes, length, drop, ltb,
  arith, ok, length-of_drop, length-append, lt→ltb, ge→ltb, drop-append, slice-of_drop,
}
use git_kmssign.Ber.{
  Asn1Object, Asn1Objects, structured, primitive, nil, cons, read_object, read_sub_objects,
  is_indefinite_termination,
}
use git_kmssign.Ber.Format.{
  IsTag, low_tag, high_tag, IsLength, NonZero, tag_bytes, Encodes, of_primitive, definite,
  indefinite, IsLength-pos,
}
use git_kmssign.Ber.Read.{read_tag-IsTag, read_length-IsLength, read_length-indefinite}

-- The first two bytes of an encoding.
abbrev pub Starts : Bytes → Asn1Object → Type 0
Starts bs o =
    (b : ℕ) × (c : ℕ) × (rest : Bytes) × (bs ≡ b ∷ c ∷ rest) × (NonZero (tag_bytes o) → b ≢ 0)

cons_of_pos : (l : Bytes) → 0 < length l → (b : ℕ) × (rest : Bytes) × (l ≡ b ∷ rest)
cons_of_pos [] h = absurd (omega arith)
cons_of_pos (b ∷ l) h = (b, l, refl)

tag_then :
    {p : Bool} {t : Bytes} (ls : Bytes)
    → IsTag p t
    → 0 < length ls
    → (b : ℕ) × (c : ℕ) × (rest : Bytes) × (t ++ ls ≡ b ∷ c ∷ rest) × (NonZero t → b ≢ 0)
tag_then ls (low_tag {b = b} h k) pos =
    let (c, rest, e) = cons_of_pos ls pos in (b, c, rest, rw e refl, λ z. z)
tag_then ls (high_tag {b = b} {bs} h k m) pos =
    let (c, rest, e) = cons_of_pos (bs ++ ls) (omega (arith, length-append bs ls)) in
    (b, c, rest, rw e refl, λ z. z)

pub Encodes-Starts : {o : Asn1Object} {bs : Bytes} → Encodes o bs → Starts bs o
Encodes-Starts (of_primitive {t} {ls} {c} tg e len eq) =
    rw eq (tag_then (ls ++ c) tg (omega (arith, length-append ls c, IsLength-pos len)))
Encodes-Starts (definite {t} {ls} {cs} tg es len eq) =
    rw eq (tag_then (ls ++ cs) tg (omega (arith, length-append ls cs, IsLength-pos len)))
Encodes-Starts (indefinite {t} {cs} tg es ne nm eq) =
    rw eq (tag_then (0x80 ∷ (cs ++ (0 ∷ 0 ∷ []))) tg (omega arith))

pub Encodes-length : {o : Asn1Object} {bs : Bytes} → Encodes o bs → 2 ≤ length bs
Encodes-length e = let (b, c, rest, eq, nz) = Encodes-Starts e in rw eq (omega arith)

-- The end of a definite object that stands at `off` does not pass the end of the input.
pub within :
    (ber t ls c rest : Bytes) (off : ℕ)
    → off ≤ length ber
    → drop off ber ≡ t ++ (ls ++ (c ++ rest))
    → off + length t + length ls + length c ≤ length ber
within ber t ls c rest off le at = omega (
  arith,
  length-of_drop off ber _ le at,
  length-append t (ls ++ (c ++ rest)),
  length-append ls (c ++ rest),
  length-append c rest,
)

-- What `read_object` does once the tag and the length are read, for each form.
pub read_object-primitive :
    (f : ℕ) (ber t ls c rest : Bytes) (off n : ℕ)
    → IsTag true t
    → n ≡ length c
    → IsLength n ls
    → off ≤ length ber
    → drop off ber ≡ t ++ (ls ++ (c ++ rest))
    → read_object (suc f) ber off ≡ ok (primitive t n c, off + length t + length ls + n)
unfolding read_object
read_object-primitive f ber t ls c rest off n tg e len le at =
    let (b, there, tag, kind) = read_tag-IsTag ber off (ls ++ (c ++ rest)) tg le at in
    let at' = drop-append off ber t _ (off + length t) at refl in
    let at'' = drop-append _ ber ls _ (off + length t + length ls) at' refl in
    let room = within ber t ls c rest off le at in
    let few : ltb (length ber) (off + length t + length ls + n) ≡ false =
      ge→ltb _ _ (omega arith) in
    rw
      (
        there,
        tag,
        read_length-IsLength ber (off + length t) (c ++ rest) len at',
        few,
        kind,
        slice-of_drop ber t _ off (off + length t) at refl,
        slice-of_drop ber c rest _ (off + length t + length ls + n) at'' (omega arith),
      )
      refl

pub read_object-definite :
    (f : ℕ) (ber t ls rest : Bytes) (off n : ℕ) {os : Asn1Objects} {last : ℕ}
    → IsTag false t
    → IsLength n ls
    → off ≤ length ber
    → drop off ber ≡ t ++ (ls ++ rest)
    → off + length t + length ls + n ≤ length ber
    → read_sub_objects f ber (off + length t + length ls) (off + length t + length ls + n) false
      ≡ ok (os, last)
    → read_object (suc f) ber off ≡ ok (structured t os, off + length t + length ls + n)
unfolding read_object
read_object-definite f ber t ls rest off n tg len le at room sub =
    let (b, there, tag, kind) = read_tag-IsTag ber off (ls ++ rest) tg le at in
    let at' = drop-append off ber t _ (off + length t) at refl in
    let few : ltb (length ber) (off + length t + length ls + n) ≡ false =
      ge→ltb _ _ (omega arith) in
    rw
      (
        there,
        tag,
        read_length-IsLength ber (off + length t) rest len at',
        few,
        kind,
        sub,
        slice-of_drop ber t _ off (off + length t) at refl,
      )
      refl

pub read_object-indefinite :
    (f : ℕ) (ber t rest : Bytes) (off : ℕ) {os : Asn1Objects} {last : ℕ}
    → IsTag false t
    → off ≤ length ber
    → drop off ber ≡ t ++ (0x80 ∷ rest)
    → read_sub_objects f ber (off + length t + 1) (off + length t + 1 + 0) true ≡ ok (os, last)
    → read_object (suc f) ber off ≡ ok (structured t os, last + 2)
unfolding read_object
read_object-indefinite f ber t rest off tg le at sub =
    let (b, there, tag, kind) = read_tag-IsTag ber off (0x80 ∷ rest) tg le at in
    let at' = drop-append off ber t _ (off + length t) at refl in
    let size = length-of_drop off ber _ le at in
    let few : ltb (length ber) (off + length t + 1 + 0) ≡ false =
      ge→ltb _ _ (omega (arith, length-append t (0x80 ∷ rest))) in
    rw
      (
        there,
        tag,
        read_length-indefinite ber (off + length t) at',
        few,
        kind,
        sub,
        slice-of_drop ber t _ off (off + length t) at refl,
      )
      refl

-- One round of the loop over sub-objects, for a definite form.
pub round_definite :
    (f : ℕ) (ber : Bytes) (off off' last content_end : ℕ) {o : Asn1Object} {os : Asn1Objects}
    → off < content_end
    → read_object f ber off ≡ ok (o, off')
    → read_sub_objects f ber off' content_end false ≡ ok (os, last)
    → read_sub_objects (suc f) ber off content_end false ≡ ok (cons o os, last)
unfolding read_sub_objects
round_definite f ber off off' last content_end lt one rest =
    rw (lt→ltb off content_end lt, one, rest) refl

pub round_indefinite :
    (f : ℕ) (ber : Bytes) (off off' last content_end : ℕ) {o : Asn1Object} {os : Asn1Objects}
    → read_object f ber off ≡ ok (o, off')
    → is_indefinite_termination ber off' ≡ ok false
    → read_sub_objects f ber off' content_end true ≡ ok (os, last)
    → read_sub_objects (suc f) ber off content_end true ≡ ok (cons o os, last)
unfolding read_sub_objects
round_indefinite f ber off off' last content_end one more rest = ground (arith, one, more, rest)

pub last_indefinite :
    (f : ℕ) (ber : Bytes) (off off' content_end : ℕ) {o : Asn1Object}
    → read_object f ber off ≡ ok (o, off')
    → is_indefinite_termination ber off' ≡ ok true
    → read_sub_objects (suc f) ber off content_end true ≡ ok (cons o nil, off')
unfolding read_sub_objects
last_indefinite f ber off off' content_end one done = ground (arith, one, done)

pub round_end :
    (f : ℕ) (ber : Bytes) (off content_end : ℕ)
    → content_end ≤ off
    → read_sub_objects (suc f) ber off content_end false ≡ ok (nil, off)
unfolding read_sub_objects
round_end f ber off content_end le = rw (ge→ltb off content_end le) refl

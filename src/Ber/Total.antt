-- ===== src/Ber/Total.antt =====
-- readObject and BER2DER of ietf-cms/protocol/ber.go on any input: the run ends, and an object that
-- is read is well formed.
use git_kmssign.Base.{
  ℕ, zero, suc, ◌+◌, ◌-◌, ◌*◌, ◌%◌, ◌≤◌, ◌<◌, ◌^◌, ◌≡◌, ◌≢◌, refl, sym, ap, bit_and, Bool, true,
  false, [], ◌∷◌, ◌++◌, Bytes, length, get_elem?, drop, slice, ltb, leb, ◌==◌, ◌&&◌, ◌||◌, arith,
  some, ok, stuck, length_too_long, length_negative, length_leading_zero, length_too_large,
  indefinite_primitive, drop-of_get_elem?, slice-of_drop, length-drop, length-take, append-nil,
  ltb→ge, Ensures, holds, failed, Ensures-ok, Ensures-ne-stuck, Ensures-if, Ensures-weaken,
  Ensures-bind, Ensures-or_panic, Ensures-fail_if, if◌then◌else◌,
}
use git_kmssign.Ber.{
  Asn1Object, read_long_tag, read_tag, read_length_bytes, read_long_length, read_length,
  is_indefinite_termination, read_object, read_sub_objects, encode, ber2der, fuel_for,
}
use git_kmssign.Ber.Canonical.{ber2der-encode}
use git_kmssign.Ber.Format.{
  IsTagNumber, last_byte, inner_byte, IsTag, low_tag, high_tag, IsWellFormed, wf_primitive,
  wf_structured, AllWellFormed, wf_nil, wf_cons, IsTag-pos,
}

-- The bytes `bs` stand between `off` and `e`.
abbrev Between : Bytes → ℕ → ℕ → Bytes → Type 0
Between ber off e bs = (drop off ber ≡ bs ++ drop e ber) × (e ≡ off + length bs) × (e ≤ length ber)

read_long_tag-Ensures :
    (f : ℕ) (ber : Bytes) (tag off : ℕ)
    → length ber < f + off
    → off ≤ length ber
    → Ensures
        (λ (t, e). (bs : Bytes) × IsTagNumber bs × Between ber off e bs)
        (read_long_tag f ber tag off)
unfolding read_long_tag
read_long_tag-Ensures zero ber tag off fuel le = absurd (omega arith)
read_long_tag-Ensures (suc f) ber tag off fuel le =
    Ensures-bind (Ensures-or_panic (get_elem? ber off)) λ b here.
      let (at, lt) = drop-of_get_elem? off ber here in
      Ensures-if (leb 0x80 b)
        (λ more.
          Ensures-weaken
            (read_long_tag-Ensures f ber ((tag * 128 + b + 256 - 0x80) % 256) (off + 1)
              (omega arith) (omega arith))
            λ (t, e) (bs, m, (at', size, room)).
              (b ∷ bs, inner_byte more m, (rw at (ap (λ l. b ∷ l) at'), omega arith, room)))
        (λ last. holds (b ∷ [], last_byte last, (at, omega arith, omega arith)))

read_tag-Ensures :
    (ber : Bytes) (b off : ℕ)
    → get_elem? ber off ≡ some b
    → Ensures
        (λ e. (t : Bytes) × IsTag (bit_and b 0x20 == 0) t × Between ber off e t)
        (read_tag ber b off)
unfolding read_tag
read_tag-Ensures ber b off here =
    let (at, lt) = drop-of_get_elem? off ber here in
    Ensures-if (bit_and b 0x1F == 0x1F)
      (λ long.
        Ensures-bind
          (read_long_tag-Ensures (suc (length ber)) ber 0 (off + 1) (omega arith) (omega arith))
          λ (t, e) (bs, m, (at', size, room)).
            holds (b ∷ bs, high_tag long refl m, (rw at (ap (λ l. b ∷ l) at'), omega arith, room)))
      (λ short. holds (b ∷ [], low_tag short refl, (at, omega arith, omega arith)))

-- The offset moves forward and stays within the input.
read_length_bytes-Ensures :
    (k : ℕ) (ber : Bytes) (acc off : ℕ)
    → off ≤ length ber
    → Ensures (λ (n, e). (off ≤ e) × (e ≤ length ber)) (read_length_bytes k ber acc off)
unfolding read_length_bytes
read_length_bytes-Ensures zero ber acc off le = holds (omega arith, le)
read_length_bytes-Ensures (suc k) ber acc off le =
    Ensures-bind (Ensures-or_panic (get_elem? ber off)) λ b here.
      let (at, lt) = drop-of_get_elem? off ber here in
      Ensures-weaken (read_length_bytes-Ensures k ber (acc * 256 + b) (off + 1) (omega arith))
        λ (n, e) (lo, hi). (omega arith, hi)

read_long_length-Ensures :
    (ber : Bytes) (k off : ℕ)
    → off ≤ length ber
    → Ensures (λ (n, e). (off ≤ e) × (e ≤ length ber)) (read_long_length ber k off)
unfolding read_long_length
read_long_length-Ensures ber k off le =
    Ensures-bind (Ensures-fail_if (ltb 4 k) length_too_long) λ _ _.
      Ensures-bind (Ensures-or_panic (get_elem? ber off)) λ b _.
        Ensures-bind (Ensures-fail_if (k == 4 && ltb 0x7F b) length_negative) λ _ _.
          Ensures-bind (Ensures-fail_if (0 == b) length_leading_zero)
            λ _ _. read_length_bytes-Ensures k ber 0 off le

read_length-Ensures :
    (ber : Bytes) (off : ℕ)
    → Ensures (λ (n, e, indefinite). (off < e) × (e ≤ length ber)) (read_length ber off)
unfolding read_length
read_length-Ensures ber off = Ensures-bind (Ensures-or_panic (get_elem? ber off)) λ l here.
    let (at, lt) = drop-of_get_elem? off ber here in
    Ensures-if (ltb 0x80 l)
      (λ _.
        Ensures-bind (read_long_length-Ensures ber (bit_and l 0x7F) (off + 1) (omega arith))
          λ (n, e) (lo, hi). holds (omega arith, hi))
      (λ _.
        Ensures-if (l == 0x80) (λ _. holds (omega arith, omega arith))
          (λ _. holds (omega arith, omega arith)))

is_indefinite_termination-Ensures :
    (ber : Bytes) (off : ℕ)
    → Ensures (λ _. off + 2 ≤ length ber) (is_indefinite_termination ber off)
unfolding is_indefinite_termination
is_indefinite_termination-Ensures ber off =
    Ensures-if (ltb (length ber - off) 2) (λ _. failed) (λ h. holds (omega (arith, ltb→ge _ 2 h)))

-- The tag bytes are those that were read, and the content of a primitive has its length.
IsTag-slice :
    (ber : Bytes) (off e : ℕ) {p : Bool} (t : Bytes)
    → IsTag p t
    → Between ber off e t
    → IsTag p (slice ber off e)
IsTag-slice ber off e t tg (at, size, room) = rw (slice-of_drop ber t _ off e at size) tg

length-slice :
    (ber : Bytes) (off n : ℕ) → off + n ≤ length ber → n ≡ length (slice ber off (off + n))
length-slice ber off n le =
    let e : off + n - off ≡ n = omega arith in
    rw e (sym (length-take n (drop off ber) (omega (arith, length-drop off ber))))

object_end-ge :
    (indefinite : Bool) (low last content_end : ℕ)
    → low ≤ last + 2
    → low ≤ content_end
    → low ≤ (if indefinite then last + 2 else content_end)
object_end-ge true low last content_end p q = p
object_end-ge false low last content_end p q = q

object_end-le :
    (indefinite : Bool) (last content_end size : ℕ)
    → (indefinite ≡ true → last + 2 ≤ size)
    → content_end ≤ size
    → (if indefinite then last + 2 else content_end) ≤ size
object_end-le true last content_end size p q = p refl
object_end-le false last content_end size p q = q

not_indefinite : (a b : Bool) → (a || b) ≡ false → b ≡ false
not_indefinite true b h = cc
not_indefinite false b h = h

mutual
  unfolding read_object read_sub_objects

  read_object-Ensures :
      (f : ℕ) (ber : Bytes) (off : ℕ)
      → off ≤ length ber
      → length ber + 2 ≤ f + off
      → Ensures
          (λ (o, e). IsWellFormed o × (off + 2 ≤ e) × (e ≤ length ber))
          (read_object f ber off)
  read_object-Ensures zero ber off le fuel = absurd (omega arith)
  read_object-Ensures (suc f) ber off le fuel =
      Ensures-bind (Ensures-or_panic (get_elem? ber off)) λ b here.
        Ensures-bind (read_tag-Ensures ber b off here) λ tag_end (t, tg, between).
          Ensures-bind (read_length-Ensures ber tag_end) λ (n, offset, indefinite) (lo, hi).
            Ensures-bind (Ensures-fail_if (ltb (length ber) (offset + n)) length_too_large)
              λ _ fits.
                Ensures-bind
                  (Ensures-fail_if (indefinite && bit_and b 0x20 == 0) indefinite_primitive)
                  λ _ _.
                    let room = ltb→ge (length ber) (offset + n) fits in
                    let past = IsTag-pos tg in
                    let size = between.1 in
                    Ensures-if (bit_and b 0x20 == 0)
                      (λ kind. holds (
                        wf_primitive (rw kind at (IsTag-slice ber off tag_end t tg between))
                            (length-slice ber offset n room),
                        omega arith,
                        room,
                      ))
                      (λ kind.
                        Ensures-bind
                          (read_sub_objects-Ensures f ber offset (offset + n) indefinite hi
                            (omega arith))
                          λ (os, last) (all, ahead, inside, mark). holds (
                            wf_structured (rw kind at (IsTag-slice ber off tag_end t tg between))
                                all,
                            object_end-ge indefinite (off + 2) last (offset + n) (omega arith)
                                (omega arith),
                            object_end-le indefinite last (offset + n) (length ber) mark room,
                          ))

  read_sub_objects-Ensures :
      (f : ℕ) (ber : Bytes) (off content_end : ℕ) (indefinite : Bool)
      → off ≤ length ber
      → length ber + 3 ≤ f + off
      → Ensures
          (λ (os, e).
            AllWellFormed os
            × (off ≤ e)
            × (e ≤ length ber)
            × (indefinite ≡ true → e + 2 ≤ length ber))
          (read_sub_objects f ber off content_end indefinite)
  read_sub_objects-Ensures zero ber off content_end indefinite le fuel = absurd (omega arith)
  read_sub_objects-Ensures (suc f) ber off content_end indefinite le fuel =
      Ensures-if (ltb off content_end || indefinite)
        (λ _.
          Ensures-bind (read_object-Ensures f ber off le (omega arith))
            λ (o, off') (w, ahead, inside).
              let again =
                Ensures-bind
                  (read_sub_objects-Ensures f ber off' content_end indefinite inside (omega arith))
                  λ (os, last) (all, ahead', inside', mark).
                    holds (wf_cons w all, omega arith, inside', mark) in
              Ensures-if indefinite
                (λ _. Ensures-bind (is_indefinite_termination-Ensures ber off') λ terminated mark.
                  Ensures-if terminated
                    (λ _. holds (wf_cons w wf_nil, omega arith, inside, λ _. mark)) (λ _. again))
                (λ _. again))
        (λ stop.
          let definite = not_indefinite (ltb off content_end) indefinite stop in
          holds (wf_nil, omega arith, le, λ t. cc))

read_object-fuel_for :
    (ber : Bytes)
    → Ensures
        (λ (o, e). IsWellFormed o × (2 ≤ e) × (e ≤ length ber))
        (read_object (fuel_for ber) ber 0)
read_object-fuel_for ber =
    Ensures-weaken (read_object-Ensures (fuel_for ber) ber 0 (omega arith) (omega arith))
      λ (o, e) (w, lo, hi). (w, omega arith, hi)

-- On every input BER2DER ends, with bytes, an error or a panic, and bytes that it returns are the DER
-- encoding of a well-formed object.
pub ber2der-Ensures :
    (ber : Bytes)
    → Ensures (λ der. (o : Asn1Object) × IsWellFormed o × (der ≡ encode o)) (ber2der ber)
unfolding ber2der
ber2der-Ensures [] = failed
ber2der-Ensures (b ∷ ber) =
    Ensures-bind (read_object-fuel_for (b ∷ ber)) λ (o, e) (w, lo, hi). holds (o, w, refl)

-- The loops and the recursion of readObject end on every input: the model never runs out of fuel.
pub ber2der-ne-stuck : (ber : Bytes) → ber2der ber ≢ stuck
ber2der-ne-stuck ber = Ensures-ne-stuck (ber2der-Ensures ber)

-- BER2DER leaves its own output as it is, if that is shorter than 2 ^ 31 bytes.
pub ber2der_idem :
    (ber : Bytes) {der : Bytes} → ber2der ber ≡ ok der → length der < 2 ^ 31 → ber2der der ≡ ok der
ber2der_idem ber {der} h small =
    let (o, w, e) = Ensures-ok (ber2der-Ensures ber) h in
    let again = ber2der-encode o [] w (rw e at small) in rw e (rw append-nil at again)

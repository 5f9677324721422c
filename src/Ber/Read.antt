-- ===== src/Ber/Read.antt =====
-- How readObject of ietf-cms/protocol/ber.go reads the tag, the length and the end-of-contents mark
-- at an offset: `drop offset ber` is the input from there on.
use git_kmssign.Base.{
  ℕ, zero, suc, ◌+◌, ◌-◌, ◌*◌, ◌%◌, ◌≤◌, ◌<◌, ◌≡◌, refl, ap, ◌≢◌, bit_and, Bool, true, false, [],
  ◌∷◌, ◌++◌, Bytes, length, get_elem?, drop, ltb, ◌==◌, ◌&&◌, arith, some, ok, get_elem?-of_drop,
  drop-add_one, length-of_drop, length-append, lt→ltb, ge→ltb,
}
use git_kmssign.Ber.{
  read_long_tag, read_tag, read_length_bytes, read_long_length, read_length,
  is_indefinite_termination,
}
use git_kmssign.Ber.Format.{
  IsTagNumber, last_byte, inner_byte, IsTag, low_tag, high_tag, IsLength, short_form, long_form,
  big_endian,
}

read_long_tag-IsTagNumber :
    (f : ℕ) (ber : Bytes) (tag off : ℕ) {bs : Bytes} (rest : Bytes)
    → IsTagNumber bs
    → drop off ber ≡ bs ++ rest
    → length bs ≤ f
    → (t : ℕ) × (read_long_tag f ber tag off ≡ ok (t, off + length bs))
unfolding read_long_tag
read_long_tag-IsTagNumber zero ber tag off rest (last_byte h) at le = absurd (omega arith)
read_long_tag-IsTagNumber zero ber tag off rest (inner_byte h m) at le = absurd (omega arith)
read_long_tag-IsTagNumber (suc f) ber tag off rest (last_byte {b} h) at le =
    ((tag * 128 + b + 256 - 128) % 256, rw (get_elem?-of_drop off ber at, h) refl)
read_long_tag-IsTagNumber (suc f) ber tag off rest (inner_byte {b} {bs} h m) at le =
    let (t, e) =
      read_long_tag-IsTagNumber f ber ((tag * 128 + b + 256 - 128) % 256) (off + 1) rest m
        (drop-add_one off ber at) (omega arith) in
    let e' : off + 1 + length bs ≡ off + suc (length bs) = omega arith in
    (t, rw (get_elem?-of_drop off ber at, h, e, e') refl)

-- A tag is read with its first byte, up to its end.
pub read_tag-IsTag :
    (ber : Bytes) (off : ℕ) {p : Bool} {t : Bytes} (rest : Bytes)
    → IsTag p t
    → off ≤ length ber
    → drop off ber ≡ t ++ rest
    → (b : ℕ) × (get_elem? ber off ≡ some b)
      × (read_tag ber b off ≡ ok (off + length t))
      × ((bit_and b 0x20 == 0) ≡ p)
unfolding read_tag
read_tag-IsTag ber off rest (low_tag {b = b} h k) le at =
    (b, get_elem?-of_drop off ber at, rw h refl, k)
read_tag-IsTag ber off rest (high_tag {b = b} {bs} h k m) le at =
    let at' = drop-add_one off ber at in
    let size = length-of_drop off ber _ le at in
    let (t, e) =
      read_long_tag-IsTagNumber (suc (length ber)) ber 0 (off + 1) rest m at'
        (omega (arith, length-append bs rest)) in
    let e' : off + 1 + length bs ≡ off + suc (length bs) = omega arith in
    (b, get_elem?-of_drop off ber at, rw (h, e, e') refl, k)

read_length_bytes-big_endian :
    (ber : Bytes) (acc off : ℕ) (bs rest : Bytes)
    → drop off ber ≡ bs ++ rest
    → read_length_bytes (length bs) ber acc off ≡ ok (big_endian acc bs, off + length bs)
unfolding read_length_bytes
read_length_bytes-big_endian ber acc off [] rest at =
    let e : off + 0 ≡ off = omega arith in rw e refl
read_length_bytes-big_endian ber acc off (b ∷ bs) rest at =
    let e : off + 1 + length bs ≡ off + suc (length bs) = omega arith in
    rw
      (
        get_elem?-of_drop off ber at,
        read_length_bytes-big_endian ber (acc * 256 + b) (off + 1) bs rest
            (drop-add_one off ber at),
        e,
      )
      refl

count_of_byte : (k : ℕ) → k < 4 → bit_and (129 + k) 0x7F ≡ suc k
count_of_byte zero h = refl
count_of_byte (suc zero) h = refl
count_of_byte (suc (suc zero)) h = refl
count_of_byte (suc (suc (suc zero))) h = refl
count_of_byte (suc (suc (suc (suc k)))) h = absurd (omega arith)

read_long_length-big_endian :
    (ber : Bytes) (off b : ℕ) (bs rest : Bytes)
    → drop off ber ≡ b ∷ (bs ++ rest)
    → length bs < 4
    → b ≢ 0
    → (length bs ≡ 3 → b < 128)
    → read_long_length ber (suc (length bs)) off ≡ ok (big_endian b bs, off + suc (length bs))
unfolding read_long_length
read_long_length-big_endian ber off b bs rest at lt nz top =
    let few : ltb 4 (suc (length bs)) ≡ false = ge→ltb 4 _ (omega arith) in
    let fits : (suc (length bs) == 4 && ltb 127 b) ≡ false = ground arith in
    let lead : (0 == b) ≡ false = ground arith in
    let there = get_elem?-of_drop off ber at in
    let tail = read_length_bytes-big_endian ber 0 off (b ∷ bs) rest at in
    let val : big_endian (0 * 256 + b) bs ≡ big_endian b bs =
      ap (λ a. big_endian a bs) (omega arith) in
    rw (few, there, fits, lead, tail) (rw val refl)

-- A definite length is read as the number that it stands for.
pub read_length-IsLength :
    (ber : Bytes) (off : ℕ) {n : ℕ} {ls : Bytes} (rest : Bytes)
    → IsLength n ls
    → drop off ber ≡ ls ++ rest
    → read_length ber off ≡ ok (n, off + length ls, false)
unfolding read_length
read_length-IsLength ber off {n} rest (short_form h) at =
    let there = get_elem?-of_drop off ber at in
    let e : ltb 128 n ≡ false = ge→ltb 128 n (omega arith) in
    let e' : (n == 128) ≡ false = ground arith in rw (there, e, e') refl
read_length-IsLength ber off rest (long_form b bs lt nz top val {l = l} c) at =
    let there = get_elem?-of_drop off ber at in
    let e : ltb 128 l ≡ true = lt→ltb 128 l (omega arith) in
    let count : bit_and l 0x7F ≡ suc (length bs) = rw c (count_of_byte (length bs) lt) in
    let long =
      read_long_length-big_endian ber (off + 1) b bs rest (drop-add_one off ber at) lt nz top in
    let e' : off + 1 + suc (length bs) ≡ off + suc (suc (length bs)) = omega arith in
    rw (there, e, count, long, val, e') refl

-- 0x80 announces the indefinite form.
pub read_length-indefinite :
    (ber : Bytes) (off : ℕ) {rest : Bytes}
    → drop off ber ≡ 0x80 ∷ rest
    → read_length ber off ≡ ok (0, off + 1, true)
unfolding read_length
read_length-indefinite ber off at = rw (get_elem?-of_drop off ber at) refl

pub is_indefinite_termination-mark :
    (ber : Bytes) (off : ℕ) (rest : Bytes)
    → off ≤ length ber
    → drop off ber ≡ 0 ∷ 0 ∷ rest
    → is_indefinite_termination ber off ≡ ok true
unfolding is_indefinite_termination
is_indefinite_termination-mark ber off rest le at =
    let size = length-of_drop off ber _ le at in
    let e : ltb (length ber - off) 2 ≡ false = ge→ltb _ 2 (omega arith) in rw (e, at) refl

pub is_indefinite_termination-NonZero :
    (ber : Bytes) (off b c : ℕ) (rest : Bytes)
    → off ≤ length ber
    → drop off ber ≡ b ∷ c ∷ rest
    → b ≢ 0
    → is_indefinite_termination ber off ≡ ok false
unfolding is_indefinite_termination
is_indefinite_termination-NonZero ber off b c rest le at nz =
    let size = length-of_drop off ber _ le at in
    let e : ltb (length ber - off) 2 ≡ false = ge→ltb _ 2 (omega arith) in
    let e' : (b == 0) ≡ false = ground arith in rw (e, at, e') refl

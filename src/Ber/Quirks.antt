-- ===== src/Ber/Quirks.antt =====
-- Inputs on which BER2DER (ietf-cms/protocol/ber.go) does not do what X.690 asks for, each stated for
-- the class of inputs that show it.
use git_kmssign.Base.{
  ℕ, zero, suc, ◌+◌, ◌≤◌, ◌<◌, ◌≡◌, refl, bit_and, true, false, [], ◌∷◌, ◌++◌, Bytes, Bool,
  get_elem?, none, some, sym, append_assoc, length, drop, ◌==◌, arith, ok, err, panic, invalid_ber,
  length-append, drop-append, append-nil,
}
use git_kmssign.Ber.{
  structured, primitive, nil, cons, encode, read_object, read_sub_objects,
  is_indefinite_termination, read_tag, read_length, ber2der, fuel_for,
}
use git_kmssign.Ber.Format.{IsTag, short_form, IsTag-pos, of_primitive}
use git_kmssign.Ber.Read.{read_tag-IsTag}
use git_kmssign.Ber.Rounds.{read_object-definite, round_definite, round_end}
use git_kmssign.Ber.Complete.{read_object-Encodes, ber2der_step}

-- An indefinite-length constructed object with a low tag and no sub-objects, which X.690 allows, is
-- refused by BER2DER: the two zero bytes are read as a sub-object.
ber2der-empty_indefinite :
    (b : ℕ)
    → (bit_and b 0x1F == 0x1F) ≡ false
    → (bit_and b 0x20 == 0) ≡ false
    → ber2der (b ∷ 0x80 ∷ 0 ∷ 0 ∷ []) ≡ err invalid_ber
unfolding ber2der read_object read_sub_objects read_tag read_length is_indefinite_termination
ber2der-empty_indefinite b low kind = rw (low, kind) refl

read_object-panic :
    (f : ℕ) (ber : Bytes) (off e b : ℕ)
    → get_elem? ber off ≡ some b
    → read_tag ber b off ≡ ok e
    → get_elem? ber e ≡ none
    → read_object (suc f) ber off ≡ panic
unfolding read_object read_length
read_object-panic f ber off e b here tag end = rw (here, tag, end) refl

get_elem?-end : (l : Bytes) (n : ℕ) → length l ≤ n → get_elem? l n ≡ none
get_elem?-end [] n h = refl
get_elem?-end (x ∷ l) zero h = absurd (omega arith)
get_elem?-end (x ∷ l) (suc n) h = get_elem?-end l n (omega arith)

ber2der_panic :
    (ber : Bytes) → 0 < length ber → read_object (fuel_for ber) ber 0 ≡ panic → ber2der ber ≡ panic
unfolding ber2der
ber2der_panic [] pos h = absurd (omega arith)
ber2der_panic (b ∷ ber) pos h = ground (arith, h)

-- Input that ends behind a tag makes BER2DER panic with an index out of range; no error is returned.
pub ber2der-truncated : {p : Bool} (t : Bytes) → IsTag p t → ber2der t ≡ panic
ber2der-truncated t tg =
    let (b, here, tag, kind) = read_tag-IsTag t 0 [] tg (omega arith) (sym (append-nil t)) in
    ber2der_panic t (IsTag-pos tg)
      (read_object-panic _ t 0 (0 + length t) b here tag (get_elem?-end t _ (omega arith)))

-- BER2DER accepts an object of definite length whose one sub-object, which is primitive, ends behind it
-- or with it, and encodes it anew with the sub-object whole (lengths are below 128).
ber2der-overrun :
    (t s c : Bytes) (n : ℕ)
    → IsTag false t
    → IsTag true s
    → length c < 128
    → n < 128
    → 0 < n
    → n ≤ length s + 1 + length c
    → ber2der (t ++ (n ∷ (s ++ (length c ∷ c))))
      ≡ ok (encode (structured t (cons (primitive s (length c) c) nil)))
ber2der-overrun t s c n tg tg' small small' pos le = ber2der_step ber (omega (arith, size)) (
    read_object-definite (suc (length ber)) ber t (n ∷ []) child 0 n tg (short_form small')
      (omega arith) refl (omega (arith, size, length-append s (length c ∷ c)))
      (round_definite (length ber) ber (0 + length t + 1) _ _ (0 + length t + 1 + n) (omega arith)
        one end))
  where
    child : Bytes
    child = s ++ (length c ∷ c)

    ber : Bytes
    ber = t ++ (n ∷ child)

    size : length ber ≡ length t + 1 + (length s + 1 + length c)
    size = omega (arith, length-append t (n ∷ child), length-append s (length c ∷ c))

    at : drop (0 + length t + 1) ber ≡ child ++ []
    at = rw append-nil (
        drop-append 0 ber (t ++ (n ∷ [])) child _ (sym (append_assoc t (n ∷ []) child))
          (omega (arith, length-append t (n ∷ []))))

    one :
        read_object (length ber) ber (0 + length t + 1)
        ≡ ok (primitive s (length c) c, 0 + length t + 1 + length child)
    one =
        read_object-Encodes (of_primitive tg' refl (short_form small) refl) (length ber) ber _ []
          (omega (arith, size)) at (omega (arith, size, IsTag-pos tg))

    end :
        read_sub_objects
          (length ber)
          ber
          (0 + length t + 1 + length child)
          (0 + length t + 1 + n)
          false
        ≡ ok (nil, 0 + length t + 1 + length child)
    end =
        let e : length ber ≡ suc (length t + (length s + 1 + length c)) = omega (arith, size) in
        rw e (round_end _ ber _ _ (omega (arith, length-append s (length c ∷ c))))

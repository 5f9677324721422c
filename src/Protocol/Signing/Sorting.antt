-- ===== src/Protocol/Signing/Sorting.antt =====
-- The order that sortAttributes of ietf-cms/protocol/protocol.go gives to attributes.
use git_kmssign.Base.{
  ◌≡◌, refl, Bool, true, false, List, [], ◌∷◌, Bytes, Bool-cases, inl, inr, arith,
}
use mathlib.Core.List.{Perm}
use mathlib.Core.List.Perm
use git_kmssign.Protocol.{Attribute}
use git_kmssign.Protocol.Signing.{bytes_less, insert_attribute, sort_attributes}

-- No later encoding is less.
abbrev pub not_below : Attribute → Attribute → Bool
not_below a b = bytes_less b.raw_value.full_bytes a.raw_value.full_bytes

-- Each attribute is not less than the one in front of it.
abbrev pub Sorted : List Attribute → Type 0
Sorted [] = Unit {0}
Sorted (a ∷ []) = Unit {0}
Sorted (a ∷ b ∷ attrs) = (not_below a b ≡ false) × Sorted (b ∷ attrs)

bytes_less-asym : (x y : Bytes) → bytes_less x y ≡ true → bytes_less y x ≡ false
unfolding bytes_less
bytes_less-asym [] [] h = cc
bytes_less-asym [] (b ∷ y) h = refl
bytes_less-asym (a ∷ x) [] h = cc
bytes_less-asym (a ∷ x) (b ∷ y) h = ground (arith, bytes_less-asym x y)

insert_attribute-cons :
    (c a : Attribute) (attrs : List Attribute)
    → not_below c a ≡ false
    → Sorted (c ∷ attrs)
    → Sorted (c ∷ insert_attribute a attrs)
unfolding insert_attribute
insert_attribute-cons c a [] h s = (h, tt)
insert_attribute-cons c a (b ∷ attrs) h (cb, s) = elim (Bool-cases (not_below a b)) [
  | inl less ↦ rw less (cb, insert_attribute-cons b a attrs (bytes_less-asym _ _ less) s)
  | inr not_less ↦ rw not_less (h, (not_less, s))
]

insert_attribute-Sorted :
    (a : Attribute) (attrs : List Attribute) → Sorted attrs → Sorted (insert_attribute a attrs)
unfolding insert_attribute
insert_attribute-Sorted a [] s = tt
insert_attribute-Sorted a (b ∷ attrs) s = elim (Bool-cases (not_below a b)) [
  | inl less ↦ rw less (insert_attribute-cons b a attrs (bytes_less-asym _ _ less) s)
  | inr not_less ↦ rw not_less (not_less, s)
]

insert_attribute-Perm :
    (a : Attribute) (attrs : List Attribute) → Perm (a ∷ attrs) (insert_attribute a attrs)
unfolding insert_attribute
insert_attribute-Perm a [] = Perm.rfl
insert_attribute-Perm a (b ∷ attrs) = elim (Bool-cases (not_below a b)) [
  | inl less ↦
      rw less (Perm.trans (Perm.swap b a attrs) (Perm.cons b (insert_attribute-Perm a attrs)))
  | inr not_less ↦ rw not_less (Perm.rfl)
]

-- sortAttributes returns the attributes that it was given, ordered by the encodings of their values.
pub sort_attributes-Sorted :
    (attrs : List Attribute) → Sorted (sort_attributes attrs) × Perm attrs (sort_attributes attrs)
unfolding sort_attributes
sort_attributes-Sorted [] = (tt, Perm.rfl)
sort_attributes-Sorted (a ∷ attrs) =
    let (sorted, same) = sort_attributes-Sorted attrs in
    (
      insert_attribute-Sorted a (sort_attributes attrs) sorted,
      Perm.trans (Perm.cons a same) (insert_attribute-Perm a (sort_attributes attrs)),
    )

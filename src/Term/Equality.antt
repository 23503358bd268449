-- ===== src/Term/Equality.antt =====
-- `Equal` and `Hash` of terms (datalog/datalog.go).
use biscuit_go.Prelude.{
  ℕ, suc, ◌+◌, ◌<◌, ◌^◌, ◌≡◌, ◌≢◌, ◌↔◌, refl, ap, true, false, List, [], ◌∷◌, compare_ℤ-eq,
  compare_bytes-eq, little_endian-injective, compared-perm, Ordering, is_eq, arith,
}
use mathlib.Core.List.{Perm}
use mathlib.Core.List.Perm
use biscuit_go.Term.{
  Term, variable, integer, string, date, bytes, bool, set, Terms, nil, cons, list_of, compare_terms,
  depths, equal, hashed, hashed_all, terms_of,
}
use biscuit_go.Term.Order.{equal-equivalence, compare_at-IsOrder}

-- A term that is no set.
abbrev pub IsFlat : Term → Type 0
IsFlat (set ts) = ⊥
IsFlat _ = Unit

compare_terms-flat : (a b : Term) → IsFlat a → compare_terms a b ≡ Ordering.eq → a ≡ b
unfolding compare_terms
compare_terms-flat (variable v) (variable w) f h = ground arith
compare_terms-flat (integer i) (integer j) f h = ap integer (compare_ℤ-eq i j h)
compare_terms-flat (string s) (string t) f h = ground arith
compare_terms-flat (date d) (date e) f h = ground arith
compare_terms-flat (bytes a) (bytes b) f h = ap bytes (compare_bytes-eq a b h)
compare_terms-flat (bool true) (bool true) f h = refl
compare_terms-flat (bool false) (bool false) f h = refl
compare_terms-flat (set ts) b f h = absurd f
compare_terms-flat _ _ f h = cc

-- For a term that is no set, `Equal` to another term is equality.
pub equal_iff : (a b : Term) → IsFlat a → (equal a b ≡ true) ↔ (a ≡ b)
equal_iff a b f = (
  λ h. compare_terms-flat a b f (unfold equal in ground arith),
  λ e. rw (← e) (equal-equivalence.0 a),
)

-- So equal terms that are no sets write the same bytes into a hash.
pub hashed-equal : (a b : Term) → IsFlat a → equal a b ≡ true → hashed a ≡ hashed b
hashed-equal a b f h = ap hashed ((equal_iff a b f).0 h)

-- The set term of two symbols, the first met first.
abbrev pub pair : ℕ → ℕ → Term
pair s t = set (cons (string s) (cons (string t) nil))

list_of-terms_of : (l : List Term) → list_of (terms_of l) ≡ l
list_of-terms_of [] = refl
list_of-terms_of (t ∷ l) = ap (λ r. t ∷ r) (list_of-terms_of l)

compare_sets : (as_ bs : Terms) → Perm (list_of as_) (list_of bs) → equal (set as_) (set bs) ≡ true
unfolding equal compare_terms
compare_sets as_ bs p = ap is_eq (
    compared-perm (compare_at-IsOrder (suc (depths as_) + suc (depths bs))) (list_of as_)
      (list_of bs) p)

-- Sets whose elements are met in different orders are equal terms.
pub equal-perm :
    (xs ys : List Term) → Perm xs ys → equal (set (terms_of xs)) (set (terms_of ys)) ≡ true
equal-perm xs ys p =
    compare_sets (terms_of xs) (terms_of ys) (rw (list_of-terms_of xs, list_of-terms_of ys) p)

-- Two sets of the same two different 64-bit symbols, met in different orders, are equal terms but
-- do not write the same bytes into a hash.
pub hashed-set_order :
    (s t : ℕ)
    → s < 2 ^ 64
    → t < 2 ^ 64
    → s ≢ t
    → (equal (pair s t) (pair t s) ≡ true) × (hashed (pair s t) ≢ hashed (pair t s))
hashed-set_order s t hs ht ne = (
  equal-perm (string s ∷ string t ∷ []) (string t ∷ string s ∷ []) (Perm.swap _ _ _),
  λ h. ne (first-eq h),
)
  where
    first-eq : hashed (pair s t) ≡ hashed (pair t s) → s ≡ t
    first-eq h =
        little_endian-injective 8 s t (hashed_all (cons (string t) nil))
          (hashed_all (cons (string s) nil)) (unfold hashed in cc h) hs ht

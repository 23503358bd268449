-- ===== src/HashSet/Valid.antt =====
-- The invariant of a hash set: the keys of the map are distinct, every element lies in the bucket of
-- its hash, no bucket holds an element twice, and `size` counts the elements.
use biscuit_go.Prelude.{
  ℕ, ◌+◌, Bool, false, ◌||◌, List, [], ◌∷◌, ◌++◌, ◌≡◌, refl, sym, any, All, ==_iff, ◌==◌, arith,
  length, length-append, any-append, All-append, Bool-cases, inl, inr,
}
use mathlib.Core.Path.{subst}
use biscuit_go.HashSet.Buckets.{Bucket, bucket_at, put_bucket, elements_of}
use biscuit_go.HashSet.{Element, HashSet, contains, insert, to_slice}
use biscuit_go.HashSet.Laws.{IsLawful}

unfoldable pub has_key {ℓ} : {T : Type ℓ} → ℕ → List (Bucket T) → Bool
has_key h [] = false
has_key h ((k, b) ∷ m) = k == h || has_key h m

has_key-put_bucket {ℓ} :
    {T : Type ℓ} (h k : ℕ) (b : List T) (m : List (Bucket T))
    → has_key k (put_bucket h b m) ≡ (h == k || has_key k m)
unfolding has_key put_bucket
has_key-put_bucket h k b [] = refl
has_key-put_bucket h k b ((j, c) ∷ m) = ground (arith, has_key-put_bucket h k b m)

pub length-put_bucket {ℓ} :
    {T : Type ℓ} (h : ℕ) (b : List T) (m : List (Bucket T))
    → length (elements_of (put_bucket h b m)) + length (bucket_at h m)
      ≡ length (elements_of m) + length b
unfolding put_bucket bucket_at elements_of
length-put_bucket h b [] = rw length-append (omega arith)
length-put_bucket h b ((k, c) ∷ m) = elim (Bool-cases (k == h)) [
  | inl same ↦ rw (same, length-append, length-append) (omega arith)
  | inr other ↦ rw (other, length-append, length-append) (omega (arith, length-put_bucket h b m))
]

module _ {ℓ} {T : Type ℓ} ⦃e : Element T⦄ where
  -- No two elements are equal.
  abbrev pub Unique : List T → Type 0
  Unique [] = Unit
  Unique (x ∷ xs) = (any (λ z. e.equal z x) xs ≡ false) × Unique xs

  abbrev pub HaveHash : ℕ → List T → Type 0
  HaveHash h = All (λ x. e.hash x ≡ h)

  abbrev pub Placed : List (Bucket T) → Type 0
  Placed [] = Unit
  Placed ((k, b) ∷ m) = (has_key k m ≡ false) × HaveHash k b × Unique b × Placed m

  pub record IsValid (s : HashSet T) : Type ℓ where
    pub placed : Placed s.buckets
    pub counted : s.size ≡ length (to_slice s)

  pub bucket_at-Placed :
      (h : ℕ) (m : List (Bucket T)) → Placed m → HaveHash h (bucket_at h m) × Unique (bucket_at h m)
  unfolding bucket_at
  bucket_at-Placed h [] p = (tt, tt)
  bucket_at-Placed h ((k, b) ∷ m) (_, hashes, once, rest) = elim (Bool-cases (k == h)) [
    | inl same ↦ rw same (subst (λ j. HaveHash j b) ((==_iff k h).0 same) hashes, once)
    | inr other ↦ rw other (bucket_at-Placed h m rest)
  ]

  pub put_bucket-Placed :
      (h : ℕ) (b : List T) (m : List (Bucket T))
      → Placed m
      → HaveHash h b
      → Unique b
      → Placed (put_bucket h b m)
  unfolding put_bucket has_key
  put_bucket-Placed h b [] p hb ub = (refl, hb, ub, tt)
  put_bucket-Placed h b ((k, c) ∷ m) (fresh, hashes, once, rest) hb ub =
      elim (Bool-cases (k == h)) [
        | inl same ↦
            rw same (fresh, subst (λ j. HaveHash j b) (sym ((==_iff k h).0 same)) hb, ub, rest)
        | inr other ↦ rw other (
          ground (arith, has_key-put_bucket h k b m, fresh),
          hashes,
          once,
          put_bucket-Placed h b m rest hb ub,
        )
      ]

  -- Hashes that differ keep elements apart.
  any-other :
      (l : IsLawful e) (x : T) (k : ℕ) (b : List T)
      → HaveHash k b
      → (k == e.hash x) ≡ false
      → any (λ z. e.equal z x) b ≡ false
  any-other l x k [] hashes ne = refl
  any-other l x k (z ∷ b) (hz, hashes) ne =
      ground (arith, any-other l x k b hashes ne, l.hash-equal z x, hz)

  any-absent :
      (l : IsLawful e) (x : T) (m : List (Bucket T))
      → Placed m
      → has_key (e.hash x) m ≡ false
      → any (λ z. e.equal z x) (elements_of m) ≡ false
  unfolding has_key elements_of
  any-absent l x [] p h = refl
  any-absent l x ((k, b) ∷ m) (_, hashes, _, rest) h = ground (
    arith,
    any-append (λ z. e.equal z x) b (elements_of m),
    any-other l x k b hashes,
    any-absent l x m rest,
  )

  any-bucket_at :
      (l : IsLawful e) (x : T) (m : List (Bucket T))
      → Placed m
      → any (λ z. e.equal z x) (bucket_at (e.hash x) m) ≡ any (λ z. e.equal z x) (elements_of m)
  unfolding bucket_at elements_of
  any-bucket_at l x [] p = refl
  any-bucket_at l x ((k, b) ∷ m) (fresh, hashes, _, rest) = ground (
    arith,
    any-append (λ z. e.equal z x) b (elements_of m),
    any-other l x k b hashes,
    any-absent l x m rest,
    any-bucket_at l x m rest,
  )

  -- In a well-formed set with a lawful equality and hash, a lookup in one bucket finds what a walk
  -- over all the elements would find.
  pub contains-to_slice :
      (l : IsLawful e) {s : HashSet T}
      → IsValid s
      → (x : T) → contains x s ≡ any (λ z. e.equal z x) (to_slice s)
  unfolding contains to_slice
  contains-to_slice l {s} v x = any-bucket_at l x s.buckets v.placed

  Unique-append :
      (l : IsLawful e) (x : T) (b : List T)
      → Unique b
      → any (λ z. e.equal z x) b ≡ false
      → Unique (b ++ x ∷ [])
  Unique-append l x [] u h = (refl, tt)
  Unique-append l x (y ∷ b) (here, u) h = (
    ground (arith, any-append (λ z. e.equal z y) b (x ∷ []), l.equal_symm x y, here),
    Unique-append l x b u (ground arith),
  )

  -- With a lawful equality and hash, `Insert` keeps a set well formed: every element lies in the
  -- bucket of its hash, no two are equal, and the size is their number.
  pub insert-IsValid :
      (l : IsLawful e) {s : HashSet T} → IsValid s → (x : T) → IsValid (insert x s).0
  unfolding insert to_slice
  insert-IsValid l {s} v x =
      let h = e.hash x in
      let bucket = bucket_at h s.buckets in
      let (hashes, once) = bucket_at-Placed h s.buckets v.placed in
      elim (Bool-cases (any (λ y. e.equal y x) bucket)) [
        | inl old ↦ rw old v
        | inr new ↦ rw new (record {
          placed =
              put_bucket-Placed h _ s.buckets v.placed
                (All-append (λ y. e.hash y ≡ h) bucket (x ∷ []) hashes (refl, tt))
                (Unique-append l x bucket once new);
          counted = omega (
            arith,
            length-put_bucket h (bucket ++ x ∷ []) s.buckets,
            length-append bucket (x ∷ []),
            v.counted,
          );
        })
      ]

-- ===== src/Origin/Encoding.antt =====
-- The keys of fact sets and rule sets (datalog/origin.go, `EncodeToString`).
use biscuit_go.Prelude.{
  ℕ, ◌<◌, ◌^◌, ◌≡◌, ◌≢◌, refl, sym, ap, ◌∙◌, Bool, false, ◌||◌, List, [], ◌∷◌, ◌++◌, map, ok, Bytes,
  format_uint, parse_uint-format_uint, IsPlain, format_uint-IsPlain, format_uint-ne-nil, ◌==◌,
  length, any, All, Ordering, is_eq, sort, insert_sorted, length-sort, arith, Bool-cases, inl, inr,
}
use biscuit_go.HashSet.{empty, insert, insert_all, new_hash_set, to_slice}
use biscuit_go.HashSet.Valid.{IsValid, contains-to_slice}
use biscuit_go.HashSet.Algebra.{contains-new_hash_set}
use biscuit_go.Origin.Block.{compare_blocks, block_element, block_element-IsLawful}
use biscuit_go.Origin.{
  Origin, split_commas, encode_ids, block_ids, encode_to_string, decode_parts, decode_from_string,
  has_block,
}

split-cons : (s : Bytes) → (part : Bytes) × (parts : List Bytes) × (split_commas s ≡ part ∷ parts)
split-cons [] = ([], [], unfold split_commas in refl)
split-cons (c ∷ s) = go (split-cons s)
  where
    go :
        (part : Bytes) × (parts : List Bytes) × (split_commas s ≡ part ∷ parts)
        → (part : Bytes) × (parts : List Bytes) × (split_commas (c ∷ s) ≡ part ∷ parts)
    go (part, parts, e) = elim (Bool-cases (c == b',')) [
      | inl comma ↦ ([], part ∷ parts, unfold split_commas in rw (e, split_commas, comma))
      | inr plain ↦ (c ∷ part, parts, unfold split_commas in rw (e, split_commas, plain))
    ]

split-comma : (s : Bytes) → split_commas (b',' ∷ s) ≡ [] ∷ split_commas s
split-comma s = let (part, parts, e) = split-cons s in unfold split_commas in rw (e, split_commas)

-- A byte that is no comma goes to the front of the first part.
split-byte :
    (c : ℕ) (s part : Bytes) (parts : List Bytes)
    → IsPlain c
    → split_commas s ≡ part ∷ parts
    → split_commas (c ∷ s) ≡ (c ∷ part) ∷ parts
unfolding split_commas
split-byte c s part parts h e = rw (e, split_commas, plain)
  where
    plain : (c == b',') ≡ false
    plain = ground arith

split-plain : (p s : Bytes) → All IsPlain p → split_commas (p ++ (b',' ∷ s)) ≡ p ∷ split_commas s
split-plain [] s h = split-comma s
split-plain (c ∷ p) s h =
    split-byte c (p ++ (b',' ∷ s)) p (split_commas s) h.0 (split-plain p s h.1)

split-last : (p : Bytes) → All IsPlain p → split_commas p ≡ p ∷ []
split-last [] h = unfold split_commas in refl
split-last (c ∷ p) h = split-byte c p p [] h.0 (split-last p h.1)

-- Splitting an encoding at its commas gives the encoded numbers back.
split-encode_ids :
    (i : ℕ) (is : List ℕ) → split_commas (encode_ids (i ∷ is)) ≡ map (format_uint 36) (i ∷ is)
unfolding encode_ids
split-encode_ids i [] = split-last (format_uint 36 i) (format_uint-IsPlain i)
split-encode_ids i (j ∷ is) =
    split-plain (format_uint 36 i) (encode_ids (j ∷ is)) (format_uint-IsPlain i)
    ∙ ap (λ l. format_uint 36 i ∷ l) (split-encode_ids j is)

encode_ids-ne-nil : (i : ℕ) (is : List ℕ) → encode_ids (i ∷ is) ≢ []
unfolding encode_ids
encode_ids-ne-nil i [] = format_uint-ne-nil 36 i
encode_ids-ne-nil i (j ∷ is) = append-ne-nil (format_uint 36 i) b',' (encode_ids (j ∷ is))
  where
    append-ne-nil : (s : Bytes) (c : ℕ) (t : Bytes) → s ++ (c ∷ t) ≢ []
    append-ne-nil [] c t = cc
    append-ne-nil (x ∷ s) c t = cc

any-insert_sorted {ℓ} :
    {A : Type ℓ} (cmp : A → A → Ordering) (p : A → Bool) (x : A) (xs : List A)
    → any p (insert_sorted cmp x xs) ≡ (p x || any p xs)
unfolding insert_sorted
any-insert_sorted cmp p x [] = refl
any-insert_sorted cmp p x (y ∷ xs) = ground (arith, any-insert_sorted cmp p x xs)

any-sort {ℓ} :
    {A : Type ℓ} (cmp : A → A → Ordering) (p : A → Bool) (xs : List A)
    → any p (sort cmp xs) ≡ any p xs
unfolding sort
any-sort cmp p [] = refl
any-sort cmp p (x ∷ xs) =
    any-insert_sorted cmp p x (sort cmp xs) ∙ ap (λ b. p x || b) (any-sort cmp p xs)

All-insert_sorted {ℓ} :
    {A : Type ℓ} (cmp : A → A → Ordering) (P : A → Type 0) (x : A) (xs : List A)
    → P x
    → All P xs
    → All P (insert_sorted cmp x xs)
unfolding insert_sorted
All-insert_sorted cmp P x [] hx h = (hx, tt)
All-insert_sorted cmp P x (y ∷ xs) hx h =
    ground (arith, All-insert_sorted cmp P x xs hx h.1, h.0, hx, h.1)

All-sort {ℓ} :
    {A : Type ℓ} (cmp : A → A → Ordering) (P : A → Type 0) (xs : List A)
    → All P xs
    → All P (sort cmp xs)
unfolding sort
All-sort cmp P [] h = tt
All-sort cmp P (x ∷ xs) h = All-insert_sorted cmp P x (sort cmp xs) h.0 (All-sort cmp P xs h.1)

sort-ne-nil {ℓ} : {A : Type ℓ} (cmp : A → A → Ordering) (xs : List A) → xs ≢ [] → sort cmp xs ≢ []
sort-ne-nil cmp [] h = absurd (h refl)
sort-ne-nil cmp (x ∷ xs) h = λ e. absurd (omega (arith, ap length e, length-sort cmp (x ∷ xs)))

ok-injective {ℓ} : {A : Type ℓ} {a b : A} → ok a ≡ ok b → a ≡ b
ok-injective h = cc

-- A `uint64`.
abbrev pub IsUint64 : ℕ → Type 0
IsUint64 i = i < 2 ^ 64

module _ (digest : Bytes → ℕ) where
  decode_parts-format :
      (is : List ℕ) (o : Origin)
      → All IsUint64 is
      → decode_parts digest (map (format_uint 36) is) o
        ≡ ok (insert_all ⦃e = block_element digest⦄ is o)
  unfolding decode_parts insert_all
  decode_parts-format [] o h = refl
  decode_parts-format (i ∷ is) o h =
      rw (parse_uint-format_uint i h.0)
        (decode_parts-format is (insert ⦃e = block_element digest⦄ i o).0 h.1)

  decode-encode_ids :
      (i : ℕ) (is : List ℕ)
      → All IsUint64 (i ∷ is)
      → decode_from_string digest (encode_ids (i ∷ is))
        ≡ ok (new_hash_set ⦃e = block_element digest⦄ (i ∷ is))
  decode-encode_ids i is h =
      whole (encode_ids (i ∷ is)) (encode_ids-ne-nil i is)
      ∙ ap (λ parts. decode_parts digest parts empty) (split-encode_ids i is)
      ∙ unfold new_hash_set in decode_parts-format (i ∷ is) empty h
    where
      whole :
          (s : Bytes)
          → s ≢ []
          → decode_from_string digest s ≡ decode_parts digest (split_commas s) empty
      whole [] k = absurd (k refl)
      whole (c ∷ s) k = unfold decode_from_string in refl

  decode-encode_list :
      (ids : List ℕ)
      → ids ≢ []
      → All IsUint64 ids
      → decode_from_string digest (encode_ids ids)
        ≡ ok (new_hash_set ⦃e = block_element digest⦄ ids)
  decode-encode_list [] n h = absurd (n refl)
  decode-encode_list (i ∷ ids) n h = decode-encode_ids i ids h

  -- Decoding the encoding of a well-formed origin that has a block, and whose blocks fit into 64
  -- bits, gives an origin of the same blocks.
  pub decode-encode :
      {o : Origin} (v : IsValid ⦃e = block_element digest⦄ o)
      → to_slice o ≢ []
      → All IsUint64 (to_slice o)
      → (o' : Origin) × (decode_from_string digest (encode_to_string o) ≡ ok o')
        × ((i : ℕ) → has_block digest i o' ≡ has_block digest i o)
  decode-encode {o} v some_block fits =
      let law = block_element-IsLawful digest in
      let ids = sort compare_blocks (to_slice o) in
      (
        new_hash_set ⦃e = block_element digest⦄ ids,
        unfold encode_to_string block_ids in
            decode-encode_list ids (sort-ne-nil compare_blocks (to_slice o) some_block)
              (All-sort compare_blocks IsUint64 (to_slice o) fits),
        λ i.
            unfold has_block in
            contains-new_hash_set ⦃e = block_element digest⦄ law i ids
            ∙ any-sort compare_blocks (λ j. is_eq (compare_blocks j i)) (to_slice o)
            ∙ sym (contains-to_slice ⦃e = block_element digest⦄ law v i),
      )

  -- Two well-formed, non-empty origins of 64-bit blocks with one encoding have the same blocks: a
  -- key of a fact set stands for one set of blocks.
  pub encode-injective :
      {o p : Origin} (v : IsValid ⦃e = block_element digest⦄ o)
      → IsValid ⦃e = block_element digest⦄ p
      → to_slice o ≢ []
      → to_slice p ≢ []
      → All IsUint64 (to_slice o)
      → All IsUint64 (to_slice p)
      → encode_to_string o ≡ encode_to_string p
      → (i : ℕ) → has_block digest i o ≡ has_block digest i p
  encode-injective v w n m f g e i =
      let (o', read, same) = decode-encode v n f in
      let (p', read', same') = decode-encode w m g in
      let alike : o' ≡ p' = ok-injective (sym read ∙ ap (decode_from_string digest) e ∙ read') in
      sym (same i) ∙ ap (has_block digest i) alike ∙ same' i

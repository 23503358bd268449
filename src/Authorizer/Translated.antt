-- ===== src/Authorizer/Translated.antt =====
-- authorizer.go, `Build`: how the scopes and checks of an authorizer come from those of a token and of
-- a builder.
use biscuit_go.Prelude.{
  subst, ℕ, suc, none, some, List, [], ◌∷◌, ◌≡◌, refl, sym, ap, ◌∙◌, Bytes, length, elements, Run,
  ok, err, ok->>=, panic, map_run, Option, arith, ok-same, ok-pair,
}
use biscuit_go.Symbol.{SymbolTable}
use biscuit_go.PublicKey.{PublicKeyTable}
use biscuit_go.Origin
use biscuit_go.Origin.{new_origin}
use biscuit_go.Evaluator.{Check as DatalogCheck, CheckKind as DatalogCheckKind}
use biscuit_go.Block.{Block, ExternalSignature}
use biscuit_go.Surface.{Check, Scope}
use biscuit_go.Surface.Each.{convert_each}
use biscuit_go.Surface.Convert.{convert_scope, convert_rule, convert_check, convert_check_kind}
use biscuit_go.Surface.Read.{read_rule, read_check, read_check_kind, read_scope}
use biscuit_go.Authorizer.{BlockChecks, Authorizer}
use biscuit_go.Authorizer.Builder.{AuthorizerBuilder}
use biscuit_go.Authorizer.Build.{through_keys, nil_keys, translate_check, translate_scope}
use biscuit_go.Token.{Biscuit}

length-map_run :
    {A B : Type 0} (f : A → Run B) (as_ : List A) (bs : List B)
    → map_run f as_ ≡ ok bs
    → length bs ≡ length as_
unfolding map_run
length-map_run f [] bs h = ap length (sym (ok-same h))
length-map_run f (a ∷ as_) bs h =
    let (b, one, h1) = ok->>= (f a) _ _ h in
    let (cs, more, h2) = ok->>= (map_run f as_) _ _ h1 in
    ap length (sym (ok-same h2)) ∙ ap suc (length-map_run f as_ cs more)

length-convert_each :
    {A B S : Type 0} (c : A → S → Run (B × S)) (as_ : List A) (s t : S) (bs : List B)
    → convert_each c as_ s ≡ ok (bs, t)
    → length bs ≡ length as_
unfolding convert_each
length-convert_each c [] s t bs h = ap length (sym (ok-pair h).0)
length-convert_each c (a ∷ as_) s t bs h =
    let ((b, s1), one, h1) = ok->>= (c a s) _ _ h in
    let ((cs, s2), more, h2) = ok->>= (convert_each c as_ s1) _ _ h1 in
    ap length (sym (ok-pair h2).0) ∙ ap suc (length-convert_each c as_ s1 s2 cs more)

-- The elements of two lists are related one by one, in their order.
pub data Pairs {A B : Type 0} (R : A → B → Type 0) : List A → List B → Type 0 where
  pairs_none : Pairs R [] []
  pairs_next :
      {a : A} {b : B} {as_ : List A} {bs : List B}
      → R a b
      → Pairs R as_ bs
      → Pairs R (a ∷ as_) (b ∷ bs)

-- A loop whose every conversion relates its result to what it converts relates them all.
pub convert_each-Pairs :
    {A B S : Type 0} (c : A → S → Run (B × S)) (R : A → B → Type 0)
    → ((a : A) (s t : S) (b : B) → c a s ≡ ok (b, t) → R a b)
    → (as_ : List A) (s t : S) (bs : List B) → convert_each c as_ s ≡ ok (bs, t)
    → Pairs R as_ bs
unfolding convert_each
convert_each-Pairs c R keep [] s t bs h = subst (Pairs R []) (ok-pair h).0 pairs_none
convert_each-Pairs c R keep (a ∷ as_) s t bs h =
    let ((b, s1), one, h1) = ok->>= (c a s) _ _ h in
    let ((cs, s2), more, h2) = ok->>= (convert_each c as_ s1) _ _ h1 in
    subst (Pairs R (a ∷ as_)) (ok-pair h2).0
      (pairs_next (keep a s s1 b one) (convert_each-Pairs c R keep as_ s1 s2 cs more))

-- The kind of a check and the number of its queries.
abbrev pub outline : DatalogCheck → DatalogCheckKind × ℕ
outline c = (c.kind, length c.queries)

abbrev pub surface_outline : Check → DatalogCheckKind × ℕ
surface_outline c = (convert_check_kind c.kind, length (elements c.queries))

convert-read_check_kind : (k : DatalogCheckKind) → convert_check_kind (read_check_kind k) ≡ k
unfolding convert_check_kind read_check_kind
convert-read_check_kind biscuit_go.Evaluator.check_one = refl
convert-read_check_kind biscuit_go.Evaluator.check_all = refl
convert-read_check_kind biscuit_go.Evaluator.check_reject = refl

nil_keys-ok : {A : Type 0} (r : Run A) (a : A) → nil_keys r ≡ ok a → r ≡ ok a
nil_keys-ok (ok b) a h = h
nil_keys-ok (err e) a h = ground arith
nil_keys-ok panic a h = cc

-- The keys of a block, none if it has no table.
abbrev pub keys_of : Option PublicKeyTable → PublicKeyTable
keys_of none = []
keys_of (some keys) = keys

through_keys-ok :
    {A : Type 0} (own : Option PublicKeyTable) (read : PublicKeyTable → Run A) (a : A)
    → through_keys own read ≡ ok a
    → read (keys_of own) ≡ ok a
through_keys-ok none read a h = nil_keys-ok (read []) a h
through_keys-ok (some keys) read a h = h

-- The symbols that a block is written with, by its number: those of the token, or its own if it is a
-- block of a third party behind the authority block.
pub data WrittenWith (token : SymbolTable) : ℕ → Block → SymbolTable → Type 0 where
  written_authority : {b : Block} → WrittenWith token 0 b token
  written_first_party :
      {i : ℕ} {b : Block} → b.external_signature ≡ none → WrittenWith token i b token
  written_third_party :
      {i : ℕ} {b : Block} {e : ExternalSignature}
      → b.external_signature ≡ some e
      → WrittenWith token (suc i) b b.symbols

-- A scope is the conversion of what a scope reads as.
pub record IsScopeOf (keys : PublicKeyTable) (s d : biscuit_go.Origin.Scope) : Type 0 where
  pub surface : Scope
  pub table : PublicKeyTable
  pub read : read_scope keys s ≡ ok surface
  pub written : (convert_scope surface table).0 ≡ d

module _ (digest : Bytes → ℕ) where
  outline-convert_check :
      (c : Check) (s t : SymbolTable × PublicKeyTable) (d : DatalogCheck)
      → convert_check digest c s ≡ ok (d, t)
      → outline d ≡ surface_outline c
  unfolding convert_check
  outline-convert_check c s t d h =
      let ((qs, u), runs, h1) =
        ok->>= (convert_each (convert_rule digest) (elements c.queries) s) _ _ h in
      ap outline (sym (ok-pair h1).0)
      ∙ (rw (length-convert_each (convert_rule digest) (elements c.queries) s u qs runs) refl)

  outline-read_check :
      (symbols : SymbolTable) (keys : PublicKeyTable) (d : DatalogCheck) (c : Check)
      → read_check digest symbols keys d ≡ ok c
      → surface_outline c ≡ outline d
  unfolding read_check
  outline-read_check symbols keys d c h =
      let (qs, read, h1) = ok->>= (map_run (read_rule digest symbols keys) d.queries) _ _ h in
      ap surface_outline (sym (ok-same h1))
      ∙ (rw
          (
            convert-read_check_kind d.kind,
            length-map_run (read_rule digest symbols keys) d.queries qs read,
          )
          refl)

  -- A check is the conversion of a check of the interface, of the same kind, for as many queries.
  pub record IsConverted (c : Check) (d : DatalogCheck) : Type 0 where
    pub before : SymbolTable × PublicKeyTable
    pub after : SymbolTable × PublicKeyTable
    pub written : convert_check digest c before ≡ ok (d, after)
    pub same : outline d ≡ surface_outline c

  -- A check is the conversion of what a check reads as with the symbols and keys given.
  pub record IsCheckOf (symbols : SymbolTable) (keys : PublicKeyTable) (c d : DatalogCheck)
      : Type 0 where
    pub surface : Check
    pub read : read_check digest symbols keys c ≡ ok surface
    pub converted : IsConverted surface d
    pub same : outline d ≡ outline c

  -- The scopes and checks are those of a block, as they read with the symbols given.
  pub record IsBlockOf (symbols : SymbolTable) (b : Block) (c : BlockChecks) : Type 0 where
    pub scopes : Pairs (IsScopeOf (keys_of b.public_keys)) b.scopes c.block_scopes
    pub checks : Pairs (IsCheckOf symbols (keys_of b.public_keys)) b.checks c.block_checks

  -- They are those of the blocks, each as it reads with the symbols that it is written with.
  pub data AreBlocksOf (token : SymbolTable) : ℕ → List Block → List BlockChecks → Type 0 where
    blocks_end : {i : ℕ} → AreBlocksOf token i [] []
    blocks_block :
        {i : ℕ} {b : Block} {c : BlockChecks} {bs : List Block} {cs : List BlockChecks}
        (symbols : SymbolTable)
        → WrittenWith token i b symbols
        → IsBlockOf symbols b c
        → AreBlocksOf token (suc i) bs cs
        → AreBlocksOf token i (b ∷ bs) (c ∷ cs)

  -- An authorizer has the scopes and checks of a token's blocks, and the checks and policies of a
  -- builder.
  pub record IsLoaded (ab : AuthorizerBuilder) (b : Biscuit) (a : Authorizer) : Type 0 where
    pub blocks : AreBlocksOf b.symbols 0 (b.authority ∷ b.blocks) a.biscuit_blocks
    pub checks : Pairs IsConverted ab.checks a.authorizer_checks
    pub policies : a.authorizer_policies ≡ ab.policies

  outline-translate_check :
      (symbols : SymbolTable) (own : Option PublicKeyTable) (c : DatalogCheck)
      (s t : SymbolTable × PublicKeyTable) (d : DatalogCheck)
      → translate_check digest symbols own c s ≡ ok (d, t)
      → outline d ≡ outline c
  unfolding translate_check
  outline-translate_check symbols own c s t d h =
      let (check, read, h1) =
        ok->>= (through_keys own (λ k. read_check digest symbols k c)) _ _ h in
      let from = through_keys-ok own (λ k. read_check digest symbols k c) check read in
      outline-convert_check check s t d h1 ∙ outline-read_check symbols (keys_of own) c check from

  pub convert_check-IsConverted :
      (c : Check) (s t : SymbolTable × PublicKeyTable) (d : DatalogCheck)
      → convert_check digest c s ≡ ok (d, t)
      → IsConverted c d
  convert_check-IsConverted c s t d h = record {
    before = s;
    after = t;
    written = h;
    same = outline-convert_check c s t d h;
  }

  pub translate_check-IsCheckOf :
      (symbols : SymbolTable) (own : Option PublicKeyTable) (c : DatalogCheck)
      (s t : SymbolTable × PublicKeyTable) (d : DatalogCheck)
      → translate_check digest symbols own c s ≡ ok (d, t)
      → IsCheckOf symbols (keys_of own) c d
  unfolding translate_check
  translate_check-IsCheckOf symbols own c s t d h =
      let (check, read, h1) =
        ok->>= (through_keys own (λ k. read_check digest symbols k c)) _ _ h in
      record {
        surface = check;
        read = through_keys-ok own (λ k. read_check digest symbols k c) check read;
        converted = convert_check-IsConverted check s t d h1;
        same = outline-translate_check symbols own c s t d h;
      }

  pub translate_scope-IsScopeOf :
      (own : Option PublicKeyTable) (s : biscuit_go.Origin.Scope) (keys after : PublicKeyTable)
      (d : biscuit_go.Origin.Scope)
      → translate_scope digest own s keys ≡ ok (d, after)
      → IsScopeOf (keys_of own) s d
  unfolding translate_scope
  translate_scope-IsScopeOf own s keys after d h =
      let (scope, read, h1) = ok->>= (through_keys own (λ k. read_scope k s)) _ _ h in
      record {
        surface = scope;
        table = keys;
        read = through_keys-ok own (λ k. read_scope k s) scope read;
        written = ap (λ x. x.0) (ok-same h1);
      }

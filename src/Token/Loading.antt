-- ===== src/Token/Loading.antt =====
-- builder.go: the symbol table of a token that `Unmarshal` reads, beside that of a token that `append`
-- makes.
use biscuit_go.Prelude.{
  ℕ, ◌+◌, none, List, [], ◌∷◌, ◌++◌, ◌≡◌, refl, sym, subst, ap, ◌∙◌, Bytes, Run, ok, ok->>=,
  Bool-cases, inl, inr, ok-same,
}
use biscuit_go.Symbol.{SymbolTable, extend}
use biscuit_go.Symbol.Known.{extend-extend}
use biscuit_go.Block.{Block, is_third_party, update_public_keys}
use biscuit_go.Conversion.Schema.{ProtoBlock}
use biscuit_go.Conversion.Blocks.{block_from_proto}
use biscuit_go.Token.{SignedBlock, Container, Biscuit}
use biscuit_go.Token.Build.{
  verify_signed_block_crypto_sizes, Loaded, load_block, load_blocks, unmarshal, with_symbols,
}

-- The table with the symbols of all the blocks, one after the other.
abbrev pub extend_all : SymbolTable → List Block → SymbolTable
extend_all t [] = t
extend_all t (b ∷ bs) = extend_all (extend t b.symbols) bs

extend_all-append :
    (t : SymbolTable) (as_ bs : List Block)
    → extend_all t (as_ ++ bs) ≡ extend_all (extend_all t as_) bs
extend_all-append t [] bs = refl
extend_all-append t (a ∷ as_) bs = extend_all-append (extend t a.symbols) as_ bs

module _ (digest : Bytes → ℕ) (parse : Bytes → Run ProtoBlock) (base : SymbolTable) where
  -- The symbols so far are those of the blocks so far.
  abbrev Covers : Loaded → Type 0
  Covers l = l.symbols ≡ extend_all base l.blocks

  -- The table extended by one more block.
  covers_more :
      (t : SymbolTable) (bs : List Block) (b : Block)
      → t ≡ extend_all base bs
      → extend t b.symbols ≡ extend_all base (bs ++ b ∷ [])
  covers_more t bs b h = ap (λ u. extend u b.symbols) h ∙ sym (extend_all-append base bs (b ∷ []))

  load_block-Covers :
      (i : ℕ) (b : Block) (l : Loaded) → Covers l → Covers (load_block digest parse i b l)
  unfolding load_block with_symbols
  load_block-Covers i b l h = elim (Bool-cases (is_third_party b)) [
    | inr own ↦ simp own (extend-extend l.symbols b.symbols ∙ covers_more l.symbols l.blocks b h)
    | inl third ↦
        simp third (covers_more l.symbols l.blocks (with_symbols (extend b.symbols b.symbols) b) h)
  ]

  load_blocks-Covers :
      (i : ℕ) (ss : List SignedBlock) (l m : Loaded)
      → Covers l
      → load_blocks digest parse i ss l ≡ ok m
      → Covers m
  unfolding load_blocks
  load_blocks-Covers i [] l m h e = subst Covers (ok-same e) h
  load_blocks-Covers i (s ∷ ss) l m h e =
      let (_, sized, e1) = ok->>= (verify_signed_block_crypto_sizes s) _ _ e in
      let (proto, parsed, e2) = ok->>= (parse s.block) _ _ e1 in
      let (block, converted, e3) =
        ok->>= (block_from_proto digest proto s.external_signature) _ _ e2 in
      load_blocks-Covers (i + 1) ss (load_block digest parse i block l) m
        (load_block-Covers i block l h) e3

-- The symbols of a token that `Unmarshal` reads are those it starts from, extended by those of the
-- authority block and of every later block in order, also of the blocks of third parties.
pub unmarshal_symbols :
    (digest : Bytes → ℕ) (parse : Bytes → Run ProtoBlock) (base : SymbolTable)
    (container : Container) (b : Biscuit)
    → unmarshal digest parse base container ≡ ok b
    → b.symbols ≡ extend_all base (b.authority ∷ b.blocks)
unfolding unmarshal
unmarshal_symbols digest parse base container b e =
    let (_, sized, e1) = ok->>= (verify_signed_block_crypto_sizes container.authority) _ _ e in
    let (proto, parsed, e2) = ok->>= (parse container.authority.block) _ _ e1 in
    let (authority, converted, e3) = ok->>= (block_from_proto digest proto none) _ _ e2 in
    let start : Loaded = record {
      blocks = [];
      symbols = extend base authority.symbols;
      public_keys = (update_public_keys digest 0 authority [] []).0;
      signature_registry = (update_public_keys digest 0 authority [] []).1;
    } in
    let (l, loaded, e4) = ok->>= (load_blocks digest parse 1 container.blocks start) _ _ e3 in
    let done = ok-same e4 in
    subst (λ c. c.symbols ≡ extend_all base (c.authority ∷ c.blocks)) done
      (load_blocks-Covers digest parse (extend base authority.symbols) 1 container.blocks start l
        refl loaded)

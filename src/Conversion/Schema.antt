-- ===== src/Conversion/Schema.antt =====
-- pb/schema.pb.go: the messages of the schema that the conversions read and write. A field that can be
-- absent is an `Option`.
use biscuit_go.Prelude.{ℕ, ℤ, Bool, Option, List, [], ◌∷◌, Bytes, Slice}
use biscuit_go.Conversion.{OpUnaryKind, OpBinaryKind, CheckV2Kind, ProtoScope}

-- `TermV2`. The contents that the program does not support are one constructor.
mutual
  pub data TermV2 : Type 0 where
    term_variable : ℕ → TermV2
    term_integer : ℤ → TermV2
    term_string : ℕ → TermV2
    term_date : ℕ → TermV2
    term_bytes : Bytes → TermV2
    term_bool : Bool → TermV2
    term_set : TermSet → TermV2
    term_unsupported : TermV2

  pub data TermSet : Type 0 where
    set_nil : TermSet
    set_cons : TermV2 → TermSet → TermSet

abbrev pub set_elements : TermSet → List TermV2
set_elements set_nil = []
set_elements (set_cons t ts) = t ∷ set_elements ts

abbrev pub set_of_elements : List TermV2 → TermSet
set_of_elements [] = set_nil
set_of_elements (t ∷ ts) = set_cons t (set_of_elements ts)

pub record PredicateV2 : Type 0 where
  pub name : ℕ
  pub terms : List TermV2

pub data OpV2 : Type 0 where
  op_value : TermV2 → OpV2
  op_unary : OpUnaryKind → OpV2
  op_binary : OpBinaryKind → OpV2
  op_unsupported : OpV2

pub record RuleV2 : Type 0 where
  pub head : PredicateV2
  pub body : List PredicateV2
  pub expressions : List (List OpV2)
  pub scope : List ProtoScope

pub record CheckV2 : Type 0 where
  pub queries : List RuleV2
  pub kind : Option CheckV2Kind

pub record ProtoPublicKey : Type 0 where
  pub algorithm : ℕ
  pub key : Bytes

pub record ProtoExternalSignature : Type 0 where
  pub signature : Slice ℕ
  pub public_key : Option ProtoPublicKey

pub record ProtoBlock : Type 0 where
  pub symbols : List Bytes
  pub context : Option Bytes
  pub version : Option ℕ
  pub facts_v2 : List PredicateV2
  pub rules_v2 : List RuleV2
  pub checks_v2 : List CheckV2
  pub scope : List ProtoScope
  pub public_keys : List ProtoPublicKey

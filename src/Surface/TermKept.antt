-- ===== src/Surface/TermKept.antt =====
-- types.go: terms and predicates that are converted and read back.
use biscuit_go.Prelude.{
  ℕ, ◌%◌, ◌^◌, true, some, List, [], ◌∷◌, ◌≡◌, refl, sym, ap, ◌∙◌, Bytes, pos, negsuc, to_uint64,
  wrap_int64, IsInt64, ok, Extends, Extends-refl, Extends-trans, arith, is_int64, ltb,
}
use biscuit_go.HashSet.Scattered.{scattered, to_slice-new_hash_set}
use biscuit_go.Symbol.{SymbolTable, insert}
use biscuit_go.Symbol.Laws.{FitsVariables, insert-prefix, str-insert-Extends, insert-mod}
use biscuit_go.Term.{Term as DatalogTerm, terms_of as datalog_terms}
use biscuit_go.Expression.Binary.{term_element as datalog_element}
use biscuit_go.Surface.{
  Term, variable, integer, string, date, bytes, bool, set, Terms, nil, cons, list_of, terms_of,
  Predicate,
}
use biscuit_go.Surface.Each.{Kept}
use biscuit_go.Surface.Compare.{term_element}
use biscuit_go.Surface.Convert.{convert, convert_all, stored, convert_predicate}
use biscuit_go.Surface.Read.{read_term, read_terms, new_set, read_predicate}

-- The term with its dates cut to the second.
unfoldable mutual
  pub to_seconds : Term → Term
  to_seconds (date d n) = date d 0
  to_seconds (set ts) = set (all_to_seconds ts)
  to_seconds (variable v) = variable v
  to_seconds (integer i) = integer i
  to_seconds (string s) = string s
  to_seconds (bytes b) = bytes b
  to_seconds (bool b) = bool b

  pub all_to_seconds : Terms → Terms
  all_to_seconds nil = nil
  all_to_seconds (cons t ts) = cons (to_seconds t) (all_to_seconds ts)

unfoldable pub predicate_to_seconds : Predicate → Predicate
unfolding to_seconds
predicate_to_seconds p = record { name = p.name; ids = all_to_seconds p.ids }

terms_of-list_of : (ts : Terms) → terms_of (list_of ts) ≡ ts
terms_of-list_of nil = refl
terms_of-list_of (cons t ts) = ap (cons t) (terms_of-list_of ts)

wrap_int64-to_uint64 : (d : biscuit_go.Prelude.ℤ) → IsInt64 d → wrap_int64 (pos (to_uint64 d)) ≡ d
unfolding wrap_int64
wrap_int64-to_uint64 d h = ground arith

insert-Extends : (s : Bytes) (t : SymbolTable) → Extends t (insert s t).1
insert-Extends s t = let (u, e, short) = insert-prefix s t in (u, e)

module _ (digest : Bytes → ℕ) where
  -- Dates are seconds of an `int64`, and no two elements of a set hash alike, neither as they are
  -- stored nor as they are read back.
  unfoldable mutual
    unfolding convert scattered to_seconds

    pub IsStorable : Term → SymbolTable → Type 0
    IsStorable (date d n) t = IsInt64 d
    IsStorable (set ts) t =
        AreStorable ts t
        × (scattered ⦃e = datalog_element digest⦄ (convert_all digest ts t).0 ≡ true)
        × (scattered ⦃e = term_element digest⦄ (list_of (all_to_seconds ts)) ≡ true)
    IsStorable (variable v) t = Unit
    IsStorable (integer i) t = Unit
    IsStorable (string s) t = Unit
    IsStorable (bytes b) t = Unit
    IsStorable (bool b) t = Unit

    pub AreStorable : Terms → SymbolTable → Type 0
    AreStorable nil t = Unit
    AreStorable (cons a ts) t = IsStorable a t × AreStorable ts (convert digest a t).1

  mutual
    unfolding convert

    pub convert-Extends : (a : Term) (t : SymbolTable) → Extends t (convert digest a t).1
    convert-Extends (variable v) t = insert-Extends v t
    convert-Extends (integer i) t = Extends-refl t
    convert-Extends (string s) t = insert-Extends s t
    convert-Extends (date d n) t = Extends-refl t
    convert-Extends (bytes b) t = Extends-refl t
    convert-Extends (bool b) t = Extends-refl t
    convert-Extends (set ts) t = convert_all-Extends ts t

    pub convert_all-Extends : (ts : Terms) (t : SymbolTable) → Extends t (convert_all digest ts t).1
    convert_all-Extends nil t = Extends-refl t
    convert_all-Extends (cons a ts) t =
        let t1 = (convert digest a t).1 in
        Extends-trans t t1 (convert_all digest ts t1).1 (convert-Extends a t)
          (convert_all-Extends ts t1)

  module _ (T : SymbolTable) (f : FitsVariables T) where
    read_set :
        (ts : Terms) (ds : List DatalogTerm)
        → scattered ⦃e = datalog_element digest⦄ ds ≡ true
        → scattered ⦃e = term_element digest⦄ (list_of (all_to_seconds ts)) ≡ true
        → read_terms digest T (datalog_terms ds) ≡ ok (all_to_seconds ts)
        → read_term digest T (stored digest ds) ≡ ok (set (all_to_seconds ts))
    unfolding read_term stored new_set
    read_set ts ds d s r =
        rw
          (
            to_slice-new_hash_set ⦃e = datalog_element digest⦄ ds d,
            r,
            to_slice-new_hash_set ⦃e = term_element digest⦄ (list_of (all_to_seconds ts)) s,
            terms_of-list_of (all_to_seconds ts),
          )
          refl

    mutual
      unfolding convert read_term to_seconds IsStorable

      pub read_term-convert :
          (a : Term) (t : SymbolTable)
          → IsStorable a t
          → Extends (convert digest a t).1 T
          → read_term digest T (convert digest a t).0 ≡ ok (to_seconds a)
      read_term-convert (variable v) t h x =
          rw (insert-mod v t T x f, str-insert-Extends v t T x f) refl
      read_term-convert (integer i) t h x = refl
      read_term-convert (string s) t h x = rw (str-insert-Extends s t T x f) refl
      read_term-convert (date d n) t h x = ap (λ s. ok (date s 0)) (wrap_int64-to_uint64 d h)
      read_term-convert (bytes b) t h x = refl
      read_term-convert (bool b) t h x = refl
      read_term-convert (set ts) t (h, d, s) x =
          read_set ts (convert_all digest ts t).0 d s (read_terms-convert_all ts t h x)

      read_terms-convert_all :
          (ts : Terms) (t : SymbolTable)
          → AreStorable ts t
          → Extends (convert_all digest ts t).1 T
          → read_terms digest T (datalog_terms (convert_all digest ts t).0) ≡ ok (all_to_seconds ts)
      read_terms-convert_all nil t h x = refl
      read_terms-convert_all (cons a ts) t (h, hs) x =
          let t1 = (convert digest a t).1 in
          rw
            (
              read_term-convert a t h
                  (Extends-trans t1 (convert_all digest ts t1).1 T (convert_all-Extends ts t1) x),
              read_terms-convert_all ts t1 hs x,
            )
            refl

  pub convert_predicate-Extends :
      (p : Predicate) (t : SymbolTable) → Extends t (convert_predicate digest p t).1
  unfolding convert_predicate
  convert_predicate-Extends p t =
      let t1 = (convert_all digest p.ids t).1 in
      Extends-trans t t1 (insert p.name t1).1 (convert_all-Extends p.ids t)
        (insert-Extends p.name t1)

  pub read_predicate-convert_predicate :
      (p : Predicate) (t T : SymbolTable)
      → AreStorable p.ids t
      → Extends (convert_predicate digest p t).1 T
      → FitsVariables T
      → read_predicate digest T (convert_predicate digest p t).0 ≡ ok (predicate_to_seconds p)
  unfolding convert_predicate read_predicate predicate_to_seconds
  read_predicate-convert_predicate p t T h x f =
      let t1 = (convert_all digest p.ids t).1 in
      rw
        (
          read_terms-convert_all T f p.ids t h
              (Extends-trans t1 (insert p.name t1).1 T (insert-Extends p.name t1) x),
          str-insert-Extends p.name t1 T x f,
        )
        refl

  pub convert_predicate-Kept :
      (p : Predicate) (t : SymbolTable)
      → AreStorable p.ids t
      → Kept Extends FitsVariables
          (λ q s. ok (convert_predicate digest q s))
          (read_predicate digest)
          predicate_to_seconds
          p
          t
  convert_predicate-Kept p t h = record {
    converted = (convert_predicate digest p t).0;
    after = (convert_predicate digest p t).1;
    runs = refl;
    grown = convert_predicate-Extends p t;
    reads = λ T x f. read_predicate-convert_predicate p t T h x f;
  }

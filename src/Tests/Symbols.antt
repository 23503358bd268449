-- ===== src/Tests/Symbols.antt =====
-- The theorems of the symbol table on tables of one and two strings.
use biscuit_go.Prelude.{◌^◌, ◌≡◌, [], ◌∷◌, ok, panic, arith}
use biscuit_go.Symbol.{SymbolTable, str, insert}
use biscuit_go.Symbol.Laws.{str-insert, str-panics}

abbrev one : SymbolTable
one = (97 ∷ []) ∷ []

abbrev two : SymbolTable
two = (97 ∷ []) ∷ (98 ∷ 99 ∷ []) ∷ []

str-insert_example : str (insert (98 ∷ []) one).1 (insert (98 ∷ []) one).0 ≡ ok (98 ∷ [])
str-insert_example = str-insert (98 ∷ []) one (omega arith)

str-panics_example : str one (2 ^ 63) ≡ panic
str-panics_example = str-panics one (2 ^ 63) (omega arith) (omega arith)

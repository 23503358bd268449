-- ===== src/Symbol.antt =====
-- datalog/symbol.go: the table that interns the strings of a token. A symbol below `offset` names a
-- default symbol, any other the entry of the table at its distance from `offset`.
pub mod Laws
pub mod Splitting
pub mod Known
use biscuit_go.Prelude.{
  ℕ, zero, suc, ◌+◌, ◌-◌, ◌^◌, Bool, true, false, not, ◌||◌, Option, none, some, List, [], ◌∷◌,
  ◌++◌, Run, ok, panic, Bytes, codes, bytes_eq, format_uint, wrap_int64, ℤ, pos, negsuc, ltb,
  if◌then◌else◌, any, length, get_elem?, take, drop,
}
use mathlib.Core.Option

abbrev pub SymbolTable : Type 0
SymbolTable = List Bytes

unfoldable pub default_symbols : List Bytes
default_symbols =
    codes "read"
    ∷ codes "write"
    ∷ codes "resource"
    ∷ codes "operation"
    ∷ codes "right"
    ∷ codes "time"
    ∷ codes "role"
    ∷ codes "owner"
    ∷ codes "tenant"
    ∷ codes "namespace"
    ∷ codes "user"
    ∷ codes "team"
    ∷ codes "service"
    ∷ codes "admin"
    ∷ codes "email"
    ∷ codes "group"
    ∷ codes "member"
    ∷ codes "ip_address"
    ∷ codes "client"
    ∷ codes "client_ip"
    ∷ codes "domain"
    ∷ codes "path"
    ∷ codes "version"
    ∷ codes "cluster"
    ∷ codes "node"
    ∷ codes "hostname"
    ∷ codes "nonce"
    ∷ codes "query"
    ∷ []

abbrev pub offset : ℕ
offset = 1024

-- `for i, v := range t { if v == s { return i } }`.
unfoldable pub position : Bytes → SymbolTable → Option ℕ
position s [] = none
position s (v ∷ t) = if bytes_eq v s then some 0 else Option.map (λ i. i + 1) (position s t)

-- The symbol of the string, and the table afterwards.
unfoldable pub insert : Bytes → SymbolTable → ℕ × SymbolTable
insert s t = elim (position s default_symbols) [
  | some i ↦ (i, t)
  | none ↦ elim (position s t) [
    | some i ↦ (offset + i, t)
    | none ↦ (offset + length t, t ++ s ∷ [])
  ]
]

unfoldable pub sym : Bytes → SymbolTable → Option ℕ
sym s t = elim (position s default_symbols) [
  | some i ↦ some i
  | none ↦ Option.map (λ i. offset + i) (position s t)
]

unfoldable pub index : Bytes → SymbolTable → Run ℕ
unfolding sym
index s t = elim (sym s t) [ some i ↦ ok i | none ↦ panic ]

-- An index expression on a slice or an array, at a Go `int`.
unfoldable pub element_at : List Bytes → ℤ → Run Bytes
element_at l (pos i) = elim (get_elem? l i) [ some s ↦ ok s | none ↦ panic ]
element_at l (negsuc i) = panic

-- `int(sym) > n - 1` at a value whose conversion is not negative.
unfoldable pub resolve : Bytes → SymbolTable → ℕ → ℤ → Run Bytes
unfolding element_at
resolve what t symbol (negsuc i) = element_at default_symbols (negsuc i)
resolve what t symbol (pos i) =
    let invalid =
      ok (codes "<invalid " ++ (what ++ (codes " " ++ (format_uint 10 symbol ++ codes ">")))) in
    if ltb i offset
    then (if ltb i (length default_symbols) then element_at default_symbols (pos i) else invalid)
    else (if ltb (i - offset) (length t) then element_at t (pos (i - offset)) else invalid)

-- `Str`, at a `uint64`.
unfoldable pub str : SymbolTable → ℕ → Run Bytes
unfolding resolve
str t symbol = resolve (codes "symbol") t symbol (wrap_int64 (pos symbol))

-- `Var`, at a `uint32`.
unfoldable pub var : SymbolTable → ℕ → Run Bytes
unfolding resolve
var t variable = resolve (codes "variable") t variable (wrap_int64 (pos variable))

-- The receiver afterwards, and the table that is split off.
unfoldable pub split_off : ℕ → SymbolTable → Run (SymbolTable × SymbolTable)
split_off at t = if ltb (length t) at then panic else ok (take at t, drop at t)

-- `_, ok := m[s]`, for the map that holds the strings of the table.
unfoldable pub holds : SymbolTable → Bytes → Bool
holds t s = any (λ v. bytes_eq v s) t

unfoldable pub is_disjoint : SymbolTable → SymbolTable → Bool
unfolding holds
is_disjoint t other = not (any (holds t) other)

-- The receiver afterwards.
unfoldable pub extend : SymbolTable → SymbolTable → SymbolTable
extend t [] = t
extend t (s ∷ other) = extend (insert s t).1 other

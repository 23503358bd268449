-- ===== src/Prelude/Digits.antt =====
-- `strconv.FormatUint` and `strconv.ParseUint` in a base of 2 to 36 and 64 bits, as the standard
-- library defines them. Formatting recurs on fuel, and `n + 1` rounds are enough for `n`.
use Prim.Native.Nat.{ℕ, zero, suc, ◌+◌, ◌-◌, ◌*◌, ◌/◌, ◌%◌, ◌<◌, ◌^◌}
use mathlib.Core.Path.{◌≡◌, refl, ◌∙◌, sym, ap}
use mathlib.Core.Logic.{inl, inr, ◌≢◌}
use mathlib.Core.Bool.{true, false, ◌&&◌}
use mathlib.Core.List.{[], ◌∷◌, ◌++◌}
use native.Mathlib.Omega.{arith}
use biscuit_go.Prelude.Tests.{ltb, leb, ltb→lt, if◌then◌else◌, Bool-cases}
use biscuit_go.Prelude.Lists.{All, All-append}
use biscuit_go.Prelude.Outcome.{Run, ok, err, panic, ◌>>=◌, invalid_number, number_range}
use biscuit_go.Prelude.Strings.{Bytes}

-- The digit `0` to `9`, `a` to `z` of a value below 36.
unfoldable pub digit : ℕ → ℕ
digit d = if ltb d 10 then b'0' + d else b'a' + (d - 10)

unfoldable pub format_digits : ℕ → ℕ → ℕ → Bytes
unfolding digit
format_digits base zero n = []
format_digits base (suc fuel) n = elim (ltb n base) [
  | true ↦ digit n ∷ []
  | false ↦ format_digits base fuel (n / base) ++ digit (n % base) ∷ []
]

unfoldable pub format_uint : ℕ → ℕ → Bytes
unfolding format_digits
format_uint base n = format_digits base (suc n) n

-- The value of a digit, 36 for a byte that is none.
unfoldable pub digit_value : ℕ → ℕ
digit_value c =
    if leb b'0' c && leb c b'9'
    then c - b'0'
    else if leb b'a' c && leb c b'z'
    then c - b'a' + 10
    else if leb b'A' c && leb c b'Z'
    then c - b'A' + 10
    else 36

unfoldable pub parse_digit : ℕ → ℕ → ℕ → Run ℕ
unfolding digit_value
parse_digit base n c =
    let d = digit_value c in
    if leb base d
    then err invalid_number
    else if leb (2 ^ 64) (n * base + d)
    then err number_range
    else ok (n * base + d)

unfoldable pub parse_digits : ℕ → ℕ → Bytes → Run ℕ
unfolding parse_digit
parse_digits base n [] = ok n
parse_digits base n (c ∷ cs) = parse_digit base n c >>= λ m. parse_digits base m cs

unfoldable pub parse_uint : ℕ → Bytes → Run ℕ
unfolding parse_digits
parse_uint base [] = err invalid_number
parse_uint base (c ∷ cs) = parse_digits base 0 (c ∷ cs)

bind_assoc {ℓ} :
    {A : Type ℓ} {B : Type ℓ} {C : Type ℓ} (r : Run A) (f : A → Run B) (g : B → Run C)
    → ((r >>= f) >>= g) ≡ (r >>= λ a. f a >>= g)
bind_assoc (ok a) f g = refl
bind_assoc (err e) f g = refl
bind_assoc panic f g = refl

parse_digits-append :
    (base n : ℕ) (s t : Bytes)
    → parse_digits base n (s ++ t) ≡ (parse_digits base n s >>= λ m. parse_digits base m t)
unfolding parse_digits
parse_digits-append base n [] t = refl
parse_digits-append base n (c ∷ s) t =
    (λ i. parse_digit base n c >>= λ m. parse_digits-append base m s t i)
    ∙ sym (
        bind_assoc (parse_digit base n c) (λ m. parse_digits base m s) (λ m. parse_digits base m t))

digit_value-digit : (d : ℕ) → d < 36 → digit_value (digit d) ≡ d
unfolding digit_value digit
digit_value-digit d h = ground arith

parse_digit-digit :
    (n d : ℕ) → d < 36 → n * 36 + d < 2 ^ 64 → parse_digit 36 n (digit d) ≡ ok (n * 36 + d)
unfolding parse_digit
parse_digit-digit n d h k = rw (digit_value-digit d h) (ground arith)

format_digits-lt : (base f n : ℕ) → n < base → format_digits base (suc f) n ≡ digit n ∷ []
unfolding format_digits
format_digits-lt base f n h = ground arith

format_digits-ge :
    (base f n : ℕ)
    → ltb n base ≡ false
    → format_digits base (suc f) n ≡ format_digits base f (n / base) ++ digit (n % base) ∷ []
unfolding format_digits
format_digits-ge base f n h = ground arith

parse_digits-format_digits :
    (f n : ℕ) → n < f → n < 2 ^ 64 → parse_digits 36 0 (format_digits 36 f n) ≡ ok n
unfolding parse_digits
parse_digits-format_digits zero n h k = absurd (omega arith)
parse_digits-format_digits (suc f) n h k = elim (Bool-cases (ltb n 36)) [
  | inl small ↦
      let below = ltb→lt n 36 small in
      rw (format_digits-lt 36 f n below, parse_digit-digit 0 n below (omega arith))
        (ap ok (omega arith))
  | inr large ↦
      rw
        (
          format_digits-ge 36 f n large,
          parse_digits-append,
          parse_digits-format_digits f (n / 36) (ground arith) (omega arith),
          parse_digit-digit (n / 36) (n % 36) (omega arith) (omega arith),
        )
        (ap ok (omega arith))
]

-- The bytes of a number in base 36 are letters and digits.
abbrev pub IsPlain : ℕ → Type 0
IsPlain c = b',' < c

digit-IsPlain : (d : ℕ) → IsPlain (digit d)
unfolding digit
digit-IsPlain d = ground arith

format_digits-IsPlain : (base f n : ℕ) → All IsPlain (format_digits base f n)
format_digits-IsPlain base zero n = unfold format_digits in tt
format_digits-IsPlain base (suc f) n = elim (Bool-cases (ltb n base)) [
  | inl small ↦ rw (format_digits-lt base f n (ltb→lt n base small)) (digit-IsPlain n, tt)
  | inr large ↦ rw (format_digits-ge base f n large) (
      All-append IsPlain (format_digits base f (n / base)) _
        (format_digits-IsPlain base f (n / base)) (digit-IsPlain (n % base), tt))
]

pub format_uint-IsPlain : (n : ℕ) → All IsPlain (format_uint 36 n)
unfolding format_uint
format_uint-IsPlain n = format_digits-IsPlain 36 (suc n) n

parse_uint-ne-nil : (s : Bytes) → s ≢ [] → parse_uint 36 s ≡ parse_digits 36 0 s
unfolding parse_uint
parse_uint-ne-nil [] h = absurd (h refl)
parse_uint-ne-nil (c ∷ s) h = refl

append-ne-nil : (s : Bytes) (c : ℕ) → s ++ c ∷ [] ≢ []
append-ne-nil [] c = cc
append-ne-nil (x ∷ s) c = cc

-- No number is written as the empty text.
pub format_uint-ne-nil : (base n : ℕ) → format_uint base n ≢ []
unfolding format_uint
format_uint-ne-nil base n = elim (Bool-cases (ltb n base)) [
  | inl small ↦ rw (format_digits-lt base n n (ltb→lt n base small)) (cc)
  | inr large ↦ rw (format_digits-ge base n n large) (append-ne-nil _ _)
]

-- Parsing what formatting in base 36 has written gives the number back, for any `uint64`.
pub parse_uint-format_uint : (n : ℕ) → n < 2 ^ 64 → parse_uint 36 (format_uint 36 n) ≡ ok n
parse_uint-format_uint n k =
    parse_uint-ne-nil (format_uint 36 n) (format_uint-ne-nil 36 n)
    ∙ unfold format_uint in parse_digits-format_digits (suc n) n (omega arith) k

-- ===== src/Common/Decimal.antt =====
-- `n.to_string()` of a non-negative integer, and `str::parse::<i64>` and `parse::<u64>`.
use Prim.Native.Char.{Char, code}
use Prim.Native.String.{String, char_at}
use package.cortex_engine.Common.Tests.{ltb, leb, eqb, if◌then◌else◌, Bool-cases}
use mathlib.Core.Logic.{inl, inr}
use package.cortex_engine.Common.Int.{ℤ, pos, neg_ℕ}
use Prim.Native.Nat.{ℕ, zero, suc, ◌+◌, ◌-◌, ◌*◌, ◌/◌, ◌%◌, ◌^◌, ◌<◌}
use mathlib.Core.Path.{◌≡◌, refl}
use mathlib.Core.Bool.{Bool, true, ◌&&◌}
use mathlib.Core.Option.{Option, none, some}
use native.Mathlib.Omega.{arith}

-- The character of a digit below ten.
digit_char : ℕ → Char
digit_char d = char_at "0123456789" d

-- Digits from the last to the first, in front of `acc`.
print_onto : ℕ → ℕ → String → String
unfolding digit_char
print_onto zero n acc = acc
print_onto (suc fuel) n acc =
    let rest = print_onto fuel (n / 10) (String.◌∷◌ (digit_char (n % 10)) acc) in
    if ltb n 10 then String.◌∷◌ (digit_char (n % 10)) acc else rest

unfoldable pub print : ℕ → String
unfolding print_onto
print n = print_onto (n + 1) n String.[]

is_digit : Char → Bool
is_digit c = leb 48 (code c) && leb (code c) 57

-- The digits of a text, read onto `acc`.
read_digits : String → ℕ → Option ℕ
unfolding is_digit
read_digits String.[] acc = some acc
read_digits (String.◌∷◌ c s) acc =
    let rest = read_digits s (acc * 10 + (code c - 48)) in if is_digit c then rest else none

-- An empty text, or a sign alone, is no number.
read_unsigned : String → Option ℕ
unfolding read_digits
read_unsigned String.[] = none
read_unsigned (String.◌∷◌ c s) = read_digits (String.◌∷◌ c s) 0

-- A number in range, with the bound that the type has on that side.
abbrev below : ℕ → Option ℕ → Option ℕ
below bound none = none
below bound (some n) = if ltb n bound then some n else none

abbrev to_int : (ℕ → ℤ) → Option ℕ → Option ℤ
to_int f none = none
to_int f (some n) = some (f n)

-- `str::parse::<i64>`: a sign is allowed, and a number out of range is an error.
unfoldable pub parse_i64 : String → Option ℤ
unfolding read_unsigned
parse_i64 String.[] = none
parse_i64 (String.◌∷◌ c s) =
    if eqb (code c) b'-'
    then to_int neg_ℕ (below (2 ^ 63 + 1) (read_unsigned s))
    else if eqb (code c) b'+'
    then to_int pos (below (2 ^ 63) (read_unsigned s))
    else to_int pos (below (2 ^ 63) (read_unsigned (String.◌∷◌ c s)))

-- `str::parse::<u64>`: a plus sign is allowed, a minus sign is not.
unfoldable pub parse_u64 : String → Option ℕ
unfolding read_unsigned
parse_u64 String.[] = none
parse_u64 (String.◌∷◌ c s) =
    if eqb (code c) b'+'
    then below (2 ^ 64) (read_unsigned s)
    else below (2 ^ 64) (read_unsigned (String.◌∷◌ c s))

digits_ok : ℕ → Bool
digits_ok zero = true
digits_ok (suc n) = eqb (code (digit_char n)) (48 + n) && digits_ok n

digits_ok_sound : (n d : ℕ) → digits_ok n ≡ true → d < n → code (digit_char d) ≡ 48 + d
unfolding digits_ok
digits_ok_sound zero d h lt = absurd (omega arith)
digits_ok_sound (suc n) d h lt = ground (arith, digits_ok_sound n d)

code-digit_char : (d : ℕ) → d < 10 → code (digit_char d) ≡ 48 + d
unfolding digits_ok digit_char
code-digit_char d h = digits_ok_sound 10 d refl h

read_digits-print_onto :
    (fuel n : ℕ) (acc : String)
    → n < fuel
    → read_digits (print_onto fuel n acc) 0 ≡ read_digits acc n
unfolding read_digits print_onto
read_digits-print_onto zero n acc h = absurd (omega arith)
read_digits-print_onto (suc fuel) n acc h = ground (
  arith,
  read_digits-print_onto fuel (n / 10) (String.◌∷◌ (digit_char (n % 10)) acc),
  code-digit_char (n % 10),
)

-- A printed number begins with a digit.
head-print_onto :
    (fuel n : ℕ) (acc : String)
    → n < fuel
    → (d : ℕ) × (s : String) × (d < 10) × (print_onto fuel n acc ≡ String.◌∷◌ (digit_char d) s)
unfolding print_onto
head-print_onto zero n acc h = absurd (omega arith)
head-print_onto (suc fuel) n acc h = elim (Bool-cases (ltb n 10)) [
  | inl small ↦ (n % 10, acc, omega arith, rw small)
  | inr big ↦
      rw big (head-print_onto fuel (n / 10) (String.◌∷◌ (digit_char (n % 10)) acc) (ground arith))
]

read_unsigned-print : (n : ℕ) → read_unsigned (print n) ≡ some n
unfolding print read_unsigned
read_unsigned-print n =
    let (d, s, h, e) = head-print_onto (n + 1) n String.[] (omega arith) in
    ground (arith, read_digits-print_onto (n + 1) n String.[], e)

-- A number that is printed is read back.
pub parse_i64-print : (n : ℕ) → n < 2 ^ 63 → parse_i64 (print n) ≡ some (pos n)
unfolding parse_i64 print
parse_i64-print n h =
    let (d, s, small, e) = head-print_onto (n + 1) n String.[] (omega arith) in
    ground (arith, read_unsigned-print n, e, code-digit_char d small)

pub parse_u64-print : (n : ℕ) → n < 2 ^ 64 → parse_u64 (print n) ≡ some n
unfolding parse_u64 print
parse_u64-print n h =
    let (d, s, small, e) = head-print_onto (n + 1) n String.[] (omega arith) in
    ground (arith, read_unsigned-print n, e, code-digit_char d small)

prints : (print 0 ≡ "0") × (print 1732 ≡ "1732") × (parse_i64 "-7" ≡ some (neg_ℕ 7))
unfolding print parse_i64
prints = (refl, refl, refl)

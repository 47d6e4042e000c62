-- ===== src/Common/Text.antt =====
-- Rust's `str` and `String` are the native texts: `len` counts bytes, the constructors walk characters.
-- A `HashSet<String>` or `BTreeSet<String>` is read as a list without repetitions.
use Prim.Native.Nat.{ℕ, zero, suc, ◌≤◌}
use Prim.Native.String.{String, ◌++◌ as append}
use mathlib.Core.Path.{◌≡◌, refl}
use mathlib.Core.Bool.{Bool, true, false, ◌||◌}
use mathlib.Core.List.{List, [], ◌∷◌, ◌++◌}
use mathlib.Core.Option.{Option, none, some}
use native.Mathlib.Omega.{arith}
use mathlib.Core.Logic.{◌↔◌}
use text.Mathlib.Text.{◌==◌}
use text.Mathlib.TextEquality.{eq_iff}
use package.cortex_engine.Common.Tests.{if◌then◌else◌}

-- Concatenation of texts; `++` is that of lists.
infixr 65 ◌+++◌
abbrev pub ◌+++◌ : String → String → String
s +++ t = append s t

-- `s.is_empty()`.
abbrev pub text_is_empty : String → Bool
text_is_empty s = s == ""

-- `a == b` of two optional texts.
abbrev pub option_eq : Option String → Option String → Bool
option_eq none none = true
option_eq none (some b) = false
option_eq (some a) none = false
option_eq (some a) (some b) = a == b

-- `s.chars().take(n).collect()`.
unfoldable pub take_chars : ℕ → String → String
take_chars zero s = String.[]
take_chars (suc n) String.[] = String.[]
take_chars (suc n) (String.◌∷◌ c s) = String.◌∷◌ c (take_chars n s)

-- `s.chars().count()`.
unfoldable pub char_count : String → ℕ
char_count String.[] = 0
char_count (String.◌∷◌ c s) = suc (char_count s)

-- `v.contains(s)`, and the membership test of a set.
unfoldable pub contains : String → List String → Bool
contains s [] = false
contains s (x ∷ xs) = x == s || contains s xs

pub contains-append :
    (s : String) (xs ys : List String) → contains s (xs ++ ys) ≡ contains s xs || contains s ys
unfolding contains
contains-append s [] ys = refl
contains-append s (x ∷ xs) ys = ground (arith, contains-append s xs ys)

-- `parts.join(sep)`.
unfoldable pub join : String → List String → String
join sep [] = ""
join sep (x ∷ []) = x
join sep (x ∷ y ∷ rest) = x +++ (sep +++ join sep (y ∷ rest))

-- No text occurs twice.
unfoldable pub is_distinct : List String → Bool
is_distinct [] = true
is_distinct (x ∷ xs) = if contains x xs then false else is_distinct xs

pub is_distinct-append :
    (xs : List String) (x : String)
    → is_distinct xs ≡ true
    → contains x xs ≡ false
    → is_distinct (xs ++ x ∷ []) ≡ true
unfolding is_distinct contains
is_distinct-append [] x h k = refl
is_distinct-append (y ∷ ys) x h k =
    ground (arith, is_distinct-append ys x, contains-append y ys (x ∷ []), eq_iff y x, eq_iff x y)

pub char_count-take_chars : (n : ℕ) (s : String) → char_count (take_chars n s) ≤ n
unfolding char_count take_chars
char_count-take_chars zero s = omega arith
char_count-take_chars (suc n) String.[] = omega arith
char_count-take_chars (suc n) (String.◌∷◌ c s) = omega (arith, char_count-take_chars n s)

pub take_chars_all : (n : ℕ) (s : String) → char_count s ≤ n → take_chars n s ≡ s
unfolding char_count take_chars
take_chars_all zero String.[] h = refl
take_chars_all zero (String.◌∷◌ c s) h = absurd (omega arith)
take_chars_all (suc n) String.[] h = refl
take_chars_all (suc n) (String.◌∷◌ c s) h = cc (take_chars_all n s (omega arith))

pub option_eq_iff : (a b : Option String) → (option_eq a b ≡ true) ↔ (a ≡ b)
option_eq_iff none none = (λ h. refl, λ h. refl)
option_eq_iff none (some b) = ((λ h. cc), (λ h. cc))
option_eq_iff (some a) none = ((λ h. cc), (λ h. cc))
option_eq_iff (some a) (some b) =
    ((λ h. ground (arith, eq_iff a b)), (λ h. ground (arith, eq_iff a b)))

-- ===== src/Common/Chars.antt =====
-- The character-wise operations of `str` that the sources call: trim, replace, split, lower case.
use Prim.Native.Char.{Char, code}
use Prim.Native.String.{String, char_at}
use package.cortex_engine.Common.Tests.{leb, eqb, if◌then◌else◌}
use Prim.Native.Nat.{ℕ, ◌-◌}
use mathlib.Core.Path.{◌≡◌, refl}
use mathlib.Core.Bool.{Bool, true, ◌&&◌, ◌||◌}
use mathlib.Core.List.{List, [], ◌∷◌}
use mathlib.Core.Option.{Option, none, some}
use text.Mathlib.Text.{◌==◌}

-- The characters with the Unicode property White_Space.
unfoldable pub is_whitespace : Char → Bool
is_whitespace c =
    (leb 9 (code c) && leb (code c) 13)
    || eqb (code c) 32
    || eqb (code c) 133
    || eqb (code c) 160
    || eqb (code c) 5760
    || (leb 8192 (code c) && leb (code c) 8202)
    || eqb (code c) 8232
    || eqb (code c) 8233
    || eqb (code c) 8239
    || eqb (code c) 8287
    || eqb (code c) 12288

-- The text without the characters of the kind at its start, and at its end.
unfoldable pub trim_start : (Char → Bool) → String → String
trim_start p String.[] = String.[]
trim_start p (String.◌∷◌ c s) = let rest = trim_start p s in if p c then rest else String.◌∷◌ c s

unfoldable pub trim_end : (Char → Bool) → String → String
trim_end p String.[] = String.[]
trim_end p (String.◌∷◌ c s) =
    let rest = trim_end p s in if p c && (rest == String.[]) then String.[] else String.◌∷◌ c rest

-- `s.trim()` and `s.trim_matches(c)`.
unfoldable pub trim : String → String
unfolding trim_start trim_end is_whitespace
trim s = trim_end is_whitespace (trim_start is_whitespace s)

unfoldable pub trim_matches : ℕ → String → String
unfolding trim_start trim_end
trim_matches k s = trim_end (λ c. eqb (code c) k) (trim_start (λ c. eqb (code c) k) s)

unfoldable pub map_chars : (Char → Char) → String → String
map_chars f String.[] = String.[]
map_chars f (String.◌∷◌ c s) = String.◌∷◌ (f c) (map_chars f s)

abbrev slash : Char
slash = "/"

-- `s.replace('\\', "/")`.
unfoldable pub forward_slashes : String → String
unfolding map_chars
forward_slashes s = map_chars (λ c. if eqb (code c) 92 then slash else c) s

unfoldable pub lower_char : Char → Char
lower_char c =
    if leb 65 (code c) && leb (code c) 90
    then char_at "abcdefghijklmnopqrstuvwxyz" (code c - 65)
    else c

-- `s.to_ascii_lowercase()`.
unfoldable pub to_ascii_lowercase : String → String
unfolding map_chars lower_char
to_ascii_lowercase s = map_chars lower_char s

-- The first piece of a split, put in front of the others.
abbrev grow : Char → List String → List String
grow c [] = (String.◌∷◌ c String.[]) ∷ []
grow c (p ∷ ps) = (String.◌∷◌ c p) ∷ ps

-- `s.split(c)`: one piece more than there are separators.
unfoldable pub split : ℕ → String → List String
split k String.[] = String.[] ∷ []
split k (String.◌∷◌ c s) =
    let rest = split k s in if eqb (code c) k then String.[] ∷ rest else grow c rest

-- `s.ends_with(t)`.
unfoldable pub ends_with : String → String → Bool
ends_with String.[] t = t == String.[]
ends_with (String.◌∷◌ c s) t = (String.◌∷◌ c s) == t || ends_with s t

trims : (trim "  a b " ≡ "a b") × (trim_matches 47 "/a/b/" ≡ "a/b")
unfolding trim trim_matches
trims = (refl, refl)

splits : (split 47 "a//b" ≡ "a" ∷ "" ∷ "b" ∷ []) × (ends_with "a.meta" ".meta" ≡ true)
unfolding split ends_with
splits = (refl, refl)

lowers : (to_ascii_lowercase "aB/Z" ≡ "ab/z") × (forward_slashes "a\\b" ≡ "a/b")
unfolding to_ascii_lowercase forward_slashes
lowers = (refl, refl)

-- `s.strip_prefix(p)`: what follows the prefix, if `s` begins with it.
unfoldable pub strip_prefix : String → String → Option String
strip_prefix s String.[] = some s
strip_prefix String.[] (String.◌∷◌ d p) = none
strip_prefix (String.◌∷◌ c s) (String.◌∷◌ d p) =
    let rest = strip_prefix s p in if eqb (code c) (code d) then rest else none

abbrev split_at_first : Char → ℕ → String → Option (String × String) → Option (String × String)
split_at_first c k s (some (a, b)) = some (String.◌∷◌ c a, b)
split_at_first c k s none = if eqb (code c) k then some (String.[], s) else none

-- `s.rsplit_once(c)`: what stands before and behind the last such character.
unfoldable pub rsplit_once : ℕ → String → Option (String × String)
rsplit_once k String.[] = none
rsplit_once k (String.◌∷◌ c s) = split_at_first c k s (rsplit_once k s)

-- `s.split("::")`, from left to right.
unfoldable pub split_colons : String → List String
split_colons String.[] = String.[] ∷ []
split_colons (String.◌∷◌ c String.[]) = (String.◌∷◌ c String.[]) ∷ []
split_colons (String.◌∷◌ c (String.◌∷◌ d s)) =
    let after = split_colons s in
    let rest = split_colons (String.◌∷◌ d s) in
    if eqb (code c) 58 && eqb (code d) 58 then String.[] ∷ after else grow c rest

-- `s.replace(a, b)` of one character by another.
unfoldable pub replace_char : ℕ → Char → String → String
unfolding map_chars
replace_char k d s = map_chars (λ c. if eqb (code c) k then d else c) s

parts :
    (rsplit_once 46 "a.b.c" ≡ some ("a.b", "c"))
    × (split_colons "a::b:c" ≡ "a" ∷ "b:c" ∷ [])
    × (strip_prefix "abc" "ab" ≡ some "c")
unfolding rsplit_once split_colons strip_prefix
parts = (refl, refl, refl)

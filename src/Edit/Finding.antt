-- ===== src/Edit/Finding.antt =====
-- mcp/src/edit.rs, `before.find(old_content)`: the text around what is found.
use Prim.Native.Char.{Char, code}
use Prim.Native.String.append
use cortex_engine.Common.{
  ◌≡◌, refl, sym, ap, subst, ◌∙◌, String, Bool, true, false, Option, none, some, ◌+++◌,
  if◌then◌else◌, eqb, eqb_iff, arith,
}
use Prim.Native.Nat.{Ordering, compare}
use text.Mathlib.TextEquality.{codes_equal}
use text.Mathlib.TextPositions.{compare_self}
use cortex_engine.Common.Chars.{strip_prefix}
use package.cortex_engine.Edit.Files.{split_here, split_at_end, find_split}

code_injective : (c d : Char) → eqb (code c) (code d) ≡ true → c ≡ d
code_injective c d h = codes_equal c d (
    subst (λ n. compare (code c) n ≡ Ordering.eq) ((eqb_iff (code c) (code d)).0 h)
      (compare_self (code c)))

strip_prefix-append : (s p rest : String) → strip_prefix s p ≡ some rest → s ≡ p +++ rest
unfolding strip_prefix
strip_prefix-append s String.[] rest h = let e : s ≡ rest = cc in e ∙ sym (append.nil rest)
strip_prefix-append String.[] (String.◌∷◌ d p) rest h = cc
strip_prefix-append (String.◌∷◌ c s) (String.◌∷◌ d p) rest h =
    pick (eqb (code c) (code d)) refl h (λ k. strip_prefix-append s p rest k)
  where
    pick :
        (b : Bool)
        → eqb (code c) (code d) ≡ b
        → (if b then strip_prefix s p else none) ≡ some rest
        → (strip_prefix s p ≡ some rest → s ≡ p +++ rest)
        → String.◌∷◌ c s ≡ String.◌∷◌ d p +++ rest
    pick true e h later =
        ap (λ x. String.◌∷◌ x s) (code_injective c d e)
        ∙ ap (λ x. String.◌∷◌ d x) (later h)
        ∙ sym (append.cons d p rest)
    pick false e h later = cc

-- What is found stands between what is before it and behind it.
pub find_split-append :
    (s t p rest : String) → find_split s t ≡ some (p, rest) → s ≡ p +++ (t +++ rest)
unfolding find_split
find_split-append String.[] t p rest h = pick (strip_prefix String.[] t) refl h
  where
    pick :
        (o : Option String)
        → strip_prefix String.[] t ≡ o
        → split_at_end o ≡ some (p, rest)
        → String.[] ≡ p +++ (t +++ rest)
    pick none e h = cc
    pick (some r) e h =
        let at_start : String.[] ≡ p = ground (arith, h) in
        let same : r ≡ rest = ground (arith, h) in
        strip_prefix-append String.[] t r e
        ∙ sym (append.nil (t +++ r))
        ∙ ap (λ q. q +++ (t +++ r)) at_start
        ∙ ap (λ q. p +++ (t +++ q)) same
find_split-append (String.◌∷◌ c s) t p rest h =
    pick (strip_prefix (String.◌∷◌ c s) t) refl (find_split s t) refl h
      (λ q k. find_split-append s t q rest k)
  where
    pick :
        (o : Option String)
        → strip_prefix (String.◌∷◌ c s) t ≡ o
        → (l : Option (String × String)) → find_split s t ≡ l
        → split_here c o l ≡ some (p, rest)
        → ((q : String) → find_split s t ≡ some (q, rest) → s ≡ q +++ (t +++ rest))
        → String.◌∷◌ c s ≡ p +++ (t +++ rest)
    pick (some r) e l k h later =
        let at_start : String.[] ≡ p = ground (arith, h) in
        let same : r ≡ rest = ground (arith, h) in
        strip_prefix-append (String.◌∷◌ c s) t r e
        ∙ sym (append.nil (t +++ r))
        ∙ ap (λ q. q +++ (t +++ r)) at_start
        ∙ ap (λ q. p +++ (t +++ q)) same
    pick none e none k h later = cc
    pick none e (some (q, r)) k h later =
        let grown : String.◌∷◌ c q ≡ p = ground (arith, h) in
        let same : r ≡ rest = ground (arith, h) in
        ap (λ x. String.◌∷◌ c x) (later q (k ∙ ap (λ x. some (q, x)) same))
        ∙ sym (append.cons c q (t +++ rest))
        ∙ ap (λ x. x +++ (t +++ rest)) grown

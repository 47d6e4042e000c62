-- ===== src/Parsers/Cover.antt =====
-- parsers/src/lib.rs: chunks and their overlaps.
use cortex_engine.Common.{
  ℕ, zero, suc, ◌+◌, ◌-◌, ◌≤◌, ◌<◌, ◌≡◌, refl, sym, ap, ◌∙◌, min, true, false, none, some, List, [],
  ◌∷◌, ◌++◌, leb, ltb, eqb, length, take, drop, arith, Bool-cases, inl, inr, length-take,
  length-drop, append_nil, All, leb→le, ltb→lt, take-append-drop,
}
use cortex_engine.Parsers.Chunking.{ChunkConfig, slice, chunk_loop, chunk_list}

module _ {ℓ} {A : Type ℓ} where
  -- The first chunk, and of every later one what comes behind the overlap.
  unfoldable pub behind : ℕ → List (List A) → List A
  behind overlap [] = []
  behind overlap (c ∷ cs) = drop overlap c ++ behind overlap cs

  unfoldable pub stitch : ℕ → List (List A) → List A
  unfolding behind
  stitch overlap [] = []
  stitch overlap (c ∷ cs) = c ++ behind overlap cs

  -- With an overlap that is not shorter than a chunk, the loop never moves on.
  pub chunk_loop_stuck :
      (fuel max_len overlap : ℕ) (xs : List A)
      → max_len ≤ overlap
      → max_len < length xs
      → chunk_loop fuel max_len overlap 0 xs ≡ none
  unfolding chunk_loop
  chunk_loop_stuck zero max_len overlap xs h k = refl
  chunk_loop_stuck (suc fuel) max_len overlap xs h k =
      let same : min (0 + max_len) (length xs) - min overlap (min (0 + max_len) (length xs)) ≡ 0 =
        omega (arith, h) in
      let again = chunk_loop_stuck fuel max_len overlap xs h k in
      let first : eqb (min (0 + max_len) (length xs)) (length xs) ≡ false = ground (arith, k) in
      let inside : ltb 0 (length xs) ≡ true = ground (arith, k) in
      rw (first, inside, same, again, chunk_loop) refl

  drop_nil : (n : ℕ) → drop {A = A} n [] ≡ []
  drop_nil zero = refl
  drop_nil (suc n) = refl

  drop-drop : (m n : ℕ) (xs : List A) → drop m (drop n xs) ≡ drop (n + m) xs
  drop-drop m zero xs = ap (λ k. drop k xs) (omega arith)
  drop-drop m (suc n) [] = drop_nil m ∙ sym (drop_nil (suc n + m))
  drop-drop m (suc n) (x ∷ xs) =
      let sum : suc (n + m) ≡ suc n + m = omega arith in
      drop-drop m n xs ∙ ap (λ k. drop k (x ∷ xs)) sum

  drop-append : (n : ℕ) (xs ys : List A) → n ≤ length xs → drop n (xs ++ ys) ≡ drop n xs ++ ys
  drop-append zero xs ys h = refl
  drop-append (suc n) [] ys h = absurd (omega (arith, h))
  drop-append (suc n) (x ∷ xs) ys h = drop-append n xs ys (omega (arith, h))

  take_all : (n : ℕ) (xs : List A) → length xs ≤ n → take n xs ≡ xs
  take_all zero [] h = refl
  take_all zero (x ∷ xs) h = absurd (omega (arith, h))
  take_all (suc n) [] h = refl
  take_all (suc n) (x ∷ xs) h = cc (take_all n xs (omega (arith, h)))

  -- The chunks from a place on: where they stand, and how long they are.
  abbrev Covers : ℕ → ℕ → ℕ → ℕ → List A → Type ℓ
  Covers fuel max_len overlap start xs =
      (c : List A) × (cs : List (List A)) × (chunk_loop fuel max_len overlap start xs
        ≡ some (c ∷ cs))
      × (stitch overlap (c ∷ cs) ≡ drop start xs)
      × (length c ≡ min max_len (length xs - start))
      × All (λ d. length d ≤ max_len) (c ∷ cs)

  last_chunk :
      (fuel max_len overlap start : ℕ) (xs : List A)
      → start < length xs
      → min (start + max_len) (length xs) ≡ length xs
      → Covers (suc fuel) max_len overlap start xs
  unfolding chunk_loop stitch behind
  last_chunk fuel max_len overlap start xs h e =
      let c = slice start (length xs) xs in
      let inside : ltb start (length xs) ≡ true = ground (arith, h) in
      let ends : eqb (length xs) (length xs) ≡ true = ground arith in
      let whole : c ≡ drop start xs =
        take_all _ (drop start xs) (omega (arith, length-drop start xs)) in
      let size : length c ≡ length xs - start = ap length whole ∙ length-drop start xs in
      (
        c,
        [],
        rw (e, ends, inside, chunk_loop) refl,
        append_nil c ∙ whole,
        size ∙ omega (arith, e, h),
        (omega (arith, size, e, h), tt),
      )

  next_chunk :
      (fuel max_len overlap start : ℕ) (xs : List A)
      → overlap < max_len
      → start + max_len < length xs
      → Covers fuel max_len overlap (start + max_len - overlap) xs
      → Covers (suc fuel) max_len overlap start xs
  unfolding chunk_loop stitch behind
  next_chunk fuel max_len overlap start xs short h (c', cs', e', st', l', al') =
      let c = slice start (start + max_len) xs in
      let stop : min (start + max_len) (length xs) ≡ start + max_len = omega (arith, h) in
      let back : start + max_len - min overlap (start + max_len) ≡ start + max_len - overlap =
        omega (arith, short) in
      let inside : ltb start (length xs) ≡ true = ground (arith, h) in
      let ends : eqb (start + max_len) (length xs) ≡ false = ground (arith, h) in
      let size : length c ≡ max_len =
        length-take (start + max_len - start) (drop start xs)
        ∙ omega (arith, length-drop start xs, h) in
      let tail : drop overlap c' ++ behind overlap cs' ≡ drop (start + max_len) xs =
        sym (drop-append overlap c' (behind overlap cs') (omega (arith, l', short, h)))
        ∙ (ap (drop overlap) st'
            ∙ (drop-drop overlap (start + max_len - overlap) xs
                ∙ ap (λ k. drop k xs) (omega (arith, short)))) in
      let joined : c ++ drop (start + max_len - start) (drop start xs) ≡ drop start xs =
        take-append-drop (start + max_len - start) (drop start xs) in
      let moved : drop (start + max_len - start) (drop start xs) ≡ drop (start + max_len) xs =
        drop-drop (start + max_len - start) start xs ∙ ap (λ k. drop k xs) (omega arith) in
      (
        c,
        c' ∷ cs',
        rw (stop, ends, inside, back, e', chunk_loop) refl,
        ap (λ ys. c ++ ys) (tail ∙ sym moved) ∙ joined,
        size ∙ omega (arith, h),
        (omega (arith, size), al'),
      )

  chunk_loop-Covers :
      (fuel max_len overlap start : ℕ) (xs : List A)
      → overlap < max_len
      → start < length xs
      → length xs - start ≤ fuel
      → Covers fuel max_len overlap start xs
  chunk_loop-Covers zero max_len overlap start xs short h f = absurd (omega (arith, h, f))
  chunk_loop-Covers (suc fuel) max_len overlap start xs short h f =
      elim (Bool-cases (ltb (start + max_len) (length xs))) [
        | inl k ↦ next_chunk fuel max_len overlap start xs short (ltb→lt _ _ k) (
            chunk_loop-Covers fuel max_len overlap (start + max_len - overlap) xs short
              (ground (arith, k, short)) (ground (arith, k, f, short, h)))
        | inr k ↦ last_chunk fuel max_len overlap start xs h (ground (arith, k))
      ]

  -- With an overlap shorter than a chunk, as many turns as the text has characters are enough, no
  -- chunk is longer than `max_len`, and the chunks, with their overlaps taken off, are the text.
  pub chunk_list_covers :
      (config : ChunkConfig) (xs : List A)
      → config.overlap < config.max_len
      → (chunks : List (List A)) × (chunk_list (length xs) config xs ≡ some chunks)
        × (stitch config.overlap chunks ≡ xs)
        × All (λ c. length c ≤ config.max_len) chunks
  unfolding chunk_list stitch behind
  chunk_list_covers config [] short = ([], refl, refl, tt)
  chunk_list_covers config (x ∷ xs) short =
      elim (Bool-cases (leb (length (x ∷ xs)) config.max_len)) [
        | inl h ↦ ((x ∷ xs) ∷ [], rw (h, chunk_list) refl, append_nil (x ∷ xs), (leb→le _ _ h, tt))
        | inr h ↦
            let (c, cs, e, st, l, al) =
              chunk_loop-Covers (length (x ∷ xs)) config.max_len config.overlap 0 (x ∷ xs) short
                (omega arith) (omega arith) in
            (c ∷ cs, rw (h, chunk_list) e, st, al)
      ]

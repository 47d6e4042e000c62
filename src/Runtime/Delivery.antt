-- ===== src/Runtime/Delivery.antt =====
-- runtime/src/protocol.rs: streams that are cut into pieces, and the messages read from them.
use cortex_engine.Common.{
  ℕ, zero, suc, ◌-◌, ◌%◌, ◌^◌, ◌≤◌, ◌<◌, ◌≡◌, refl, sym, ap, subst, ◌∙◌, true, false, Option, none,
  some, List, [], ◌∷◌, ◌++◌, leb, length, take, drop, arith, Bool-cases, inl, inr, length-append,
  append_nil, append_assoc, append_split, take-length-append, drop-length-append,
}
use cortex_engine.Runtime.Framing.{
  Segment, Stream, read, Filled, read_loop, read_exact_or_closed, u32_to_be_bytes,
  u32_from_be_bytes, Received, recv_msg, send_msg, after_header, body,
}

-- The bytes of a stream, whose pieces are none of them empty or broken.
unfoldable pub IsWhole : Stream → Type 0
IsWhole [] = Unit
IsWhole (Segment.bytes [] ∷ s) = ⊥
IsWhole (Segment.bytes (b ∷ bs) ∷ s) = IsWhole s
IsWhole (Segment.broken ∷ s) = ⊥

unfoldable pub content : Stream → List ℕ
content [] = []
content (Segment.bytes b ∷ s) = b ++ content s
content (Segment.broken ∷ s) = []

bytes-IsWhole : (b : List ℕ) (s : Stream) → IsWhole s → 0 < length b → IsWhole (Segment.bytes b ∷ s)
unfolding IsWhole
bytes-IsWhole [] s w h = absurd (omega (arith, h))
bytes-IsWhole (x ∷ b) s w h = w

abbrev Gives : ℕ → ℕ → List ℕ → Stream → List ℕ → List ℕ → Type 0
Gives fuel need got s wanted later =
    (rest : Stream) × (read_loop fuel need got s ≡ (Filled.full (got ++ wanted), rest))
    × IsWhole rest
    × (content rest ≡ later)

read_loop_filled :
    (fuel : ℕ) (got : List ℕ) (s : Stream) → read_loop fuel 0 got s ≡ (Filled.full got, s)
unfolding read_loop
read_loop_filled zero got s = refl
read_loop_filled (suc fuel) got s = refl

read_small :
    (n : ℕ) (b : List ℕ) (s : Stream)
    → leb (length b) n ≡ true
    → read n (Segment.bytes b ∷ s) ≡ (some b, s)
unfolding read
read_small n b s h = rw (h, read) refl

read_large :
    (n : ℕ) (b : List ℕ) (s : Stream)
    → leb (length b) n ≡ false
    → read n (Segment.bytes b ∷ s) ≡ (some (take n b), Segment.bytes (drop n b) ∷ s)
unfolding read
read_large n b s h = rw (h, read) refl

read_loop_turn :
    (fuel need : ℕ) (got : List ℕ) (s : Stream) (b : ℕ) (bs : List ℕ) (rest : Stream)
    → read (suc need) s ≡ (some (b ∷ bs), rest)
    → read_loop (suc fuel) (suc need) got s
      ≡ read_loop fuel (suc need - length (b ∷ bs)) (got ++ b ∷ bs) rest
unfolding read_loop
read_loop_turn fuel need got s b bs rest h =
    ap
      (λ (p : Option (List ℕ) × Stream). elim p.0 [
        | none ↦ (Filled.io_error, p.1)
        | some [] ↦ (Filled.closed, p.1)
        | some (x ∷ xs) ↦ read_loop fuel (suc need - length (x ∷ xs)) (got ++ x ∷ xs) p.1
      ])
      h

-- A piece that the buffer takes whole.
small_piece :
    (fuel need : ℕ) (got : List ℕ) (b : ℕ) (bs : List ℕ) (s : Stream) (more later : List ℕ)
    → leb (length (b ∷ bs)) (suc need) ≡ true
    → Gives fuel (suc need - length (b ∷ bs)) (got ++ b ∷ bs) s more later
    → Gives (suc fuel) (suc need) got (Segment.bytes (b ∷ bs) ∷ s) ((b ∷ bs) ++ more) later
small_piece fuel need got b bs s more later h (rest, r, v, c) = (
  rest,
  read_loop_turn fuel need got _ b bs s (read_small (suc need) (b ∷ bs) s h)
      ∙ (r ∙ rw (append_assoc got (b ∷ bs) more) refl),
  v,
  c,
)

-- A piece of which the buffer takes the first part.
large_piece :
    (fuel : ℕ) (got : List ℕ) (w : ℕ) (ws : List ℕ) (s : Stream) (more : List ℕ)
    → IsWhole s
    → 0 < length more
    → Gives
        (suc fuel)
        (length (w ∷ ws))
        got
        (Segment.bytes ((w ∷ ws) ++ more) ∷ s)
        (w ∷ ws)
        (more ++ content s)
unfolding content
large_piece fuel got w ws s more v long =
    let sizes = length-append (w ∷ ws) more in
    let cut : read (length (w ∷ ws)) (Segment.bytes ((w ∷ ws) ++ more) ∷ s)
        ≡ (some (w ∷ ws), Segment.bytes more ∷ s) =
      read_large (length (w ∷ ws)) ((w ∷ ws) ++ more) s (ground (arith, sizes, long))
      ∙ rw (take-length-append ws more, drop-length-append ws more) refl in
    let left : suc (length ws) - length (w ∷ ws) ≡ 0 = omega arith in
    (
      Segment.bytes more ∷ s,
      read_loop_turn fuel (length ws) got _ w ws (Segment.bytes more ∷ s) cut
          ∙ (ap (λ n. read_loop fuel n (got ++ w ∷ ws) (Segment.bytes more ∷ s)) left
              ∙ read_loop_filled fuel (got ++ w ∷ ws) (Segment.bytes more ∷ s)),
      bytes-IsWhole more s v long,
      refl,
    )

large_wanted :
    (fuel need : ℕ) (got piece : List ℕ) (s : Stream) (wanted more later : List ℕ)
    → length wanted ≡ suc need
    → piece ≡ wanted ++ more
    → later ≡ more ++ content s
    → IsWhole s
    → 0 < length more
    → Gives (suc fuel) (suc need) got (Segment.bytes piece ∷ s) wanted later
large_wanted fuel need got piece s [] more later l p q v long = absurd (omega (arith, l))
large_wanted fuel need got piece s (w ∷ ws) more later l p q v long =
    subst (λ n. Gives (suc fuel) n got (Segment.bytes piece ∷ s) (w ∷ ws) later) l
      (subst (λ b. Gives (suc fuel) (length (w ∷ ws)) got (Segment.bytes b ∷ s) (w ∷ ws) later)
        (sym p)
        (subst
          (λ y.
            Gives (suc fuel) (length (w ∷ ws)) got (Segment.bytes ((w ∷ ws) ++ more) ∷ s) (w ∷ ws)
              y)
          (sym q) (large_piece fuel got w ws s more v long)))

-- The loop gives the first bytes of the stream, and leaves the others.
read_loop-Gives :
    (fuel need : ℕ) (got : List ℕ) (s : Stream) (wanted later : List ℕ)
    → IsWhole s
    → need ≤ fuel
    → length wanted ≡ need
    → content s ≡ wanted ++ later
    → Gives fuel need got s wanted later
unfolding read_loop read IsWhole content
read_loop-Gives fuel zero got s [] later w f l e =
    (s, rw (append_nil got) (read_loop_filled fuel got s), w, e)
read_loop-Gives fuel zero got s (x ∷ wanted) later w f l e = absurd (omega (arith, l))
read_loop-Gives zero (suc need) got s wanted later w f l e = absurd (omega (arith, f))
read_loop-Gives (suc fuel) (suc need) got [] [] later w f l e = absurd (omega (arith, l))
read_loop-Gives (suc fuel) (suc need) got [] (x ∷ wanted) later w f l e = absurd (ground (arith, e))
read_loop-Gives (suc fuel) (suc need) got (Segment.bytes [] ∷ s) wanted later w f l e = absurd w
read_loop-Gives (suc fuel) (suc need) got (Segment.broken ∷ s) wanted later w f l e = absurd w
read_loop-Gives (suc fuel) (suc need) got (Segment.bytes (b ∷ bs) ∷ s) wanted later w f l e =
    elim (Bool-cases (leb (length (b ∷ bs)) (suc need))) [
      | inl h ↦
          let (more, p, q) =
            append_split (b ∷ bs) (content s) wanted later e (ground (arith, l, h)) in
          let counted : length wanted ≡ length ((b ∷ bs) ++ more) = ap length p in
          subst (λ x. Gives (suc fuel) (suc need) got (Segment.bytes (b ∷ bs) ∷ s) x later) (sym p)
            (small_piece fuel need got b bs s more later h (
              read_loop-Gives fuel (suc need - length (b ∷ bs)) (got ++ b ∷ bs) s more later w
                (omega (arith, f)) (omega (arith, l, length-append (b ∷ bs) more, counted)) q))
      | inr h ↦
          let (more, p, q) =
            append_split wanted later (b ∷ bs) (content s) (sym e) (ground (arith, l, h)) in
          let counted : length (b ∷ bs) ≡ length (wanted ++ more) = ap length p in
          large_wanted fuel need got (b ∷ bs) s wanted more later l p q w
            (ground (arith, l, h, length-append wanted more, counted))
    ]

be_bytes_round_trip : (n : ℕ) → n < 2 ^ 32 → u32_from_be_bytes (u32_to_be_bytes n) ≡ n
unfolding u32_from_be_bytes u32_to_be_bytes
be_bytes_round_trip n h = omega (arith, h)

four_bytes : (n : ℕ) → length (u32_to_be_bytes n) ≡ 4
unfolding u32_to_be_bytes
four_bytes n = refl

-- A message that is sent is received, and what follows it is left in the stream, however its bytes
-- arrive in pieces; its JSON is shorter than 4 GiB, and the JSON library reads back what it writes.
pub recv_msg-send_msg :
    {Value : Type 0} (to_vec : Value → List ℕ) (from_slice : List ℕ → Option Value)
    → ((v : Value) → from_slice (to_vec v) ≡ some v)
    → (v : Value) (s : Stream) (later : List ℕ) → length (to_vec v) < 2 ^ 32
    → IsWhole s
    → content s ≡ send_msg to_vec from_slice v ++ later
    → (rest : Stream) × (recv_msg to_vec from_slice s ≡ (Received.message v, rest))
      × IsWhole rest
      × (content rest ≡ later)
unfolding recv_msg send_msg read_exact_or_closed
recv_msg-send_msg to_vec from_slice reads v s later short w e =
    let size : length (to_vec v) % 2 ^ 32 ≡ length (to_vec v) = omega (arith, short) in
    let header = u32_to_be_bytes (length (to_vec v) % 2 ^ 32) in
    let (s', r, w', c) =
      read_loop-Gives 4 4 [] s header (to_vec v ++ later) w (omega arith)
        (four_bytes (length (to_vec v) % 2 ^ 32)) (e ∙ append_assoc header (to_vec v) later) in
    let number : u32_from_be_bytes header ≡ length (to_vec v) =
      be_bytes_round_trip (length (to_vec v) % 2 ^ 32) (omega (arith, short)) ∙ size in
    let (rest, r', w'', c') =
      read_loop-Gives (length (to_vec v)) (length (to_vec v)) [] s' (to_vec v) later w'
        (omega arith) refl c in
    (
      rest,
      ap (after_header to_vec from_slice) r
          ∙ (ap (λ n. body to_vec from_slice (read_exact_or_closed n s')) number
              ∙ (ap (body to_vec from_slice) r' ∙ rw (reads v) refl)),
      w'',
      c',
    )

-- ===== src/Parsers/Chunking.antt =====
-- parsers/src/lib.rs: `semantic_chunk_with`, on the list of the text's characters.
use Prim.Native.Char.{Char}
use cortex_engine.Common.{
  ℕ, zero, suc, ◌+◌, ◌-◌, min, String, Option, none, some, List, [], ◌∷◌, if◌then◌else◌, leb, ltb,
  eqb, length, take, drop, map_option, map,
}

pub record ChunkConfig : Type 0 where
  pub max_len : ℕ
  pub overlap : ℕ

-- `text.chars().collect()`, and back.
unfoldable pub chars : String → List Char
chars String.[] = []
chars (String.◌∷◌ c s) = c ∷ chars s

unfoldable pub from_chars : List Char → String
from_chars [] = String.[]
from_chars (c ∷ cs) = String.◌∷◌ c (from_chars cs)

module _ {ℓ} {A : Type ℓ} where
  -- `chars[start..end]`.
  abbrev pub slice : ℕ → ℕ → List A → List A
  slice start end xs = take (end - start) (drop start xs)

  abbrev pub push_front : List A → Option (List (List A)) → Option (List (List A))
  push_front chunk rest = map_option (λ cs. chunk ∷ cs) rest

  -- The loop, on fuel: the chunks from `start` on.
  unfoldable pub chunk_loop : ℕ → ℕ → ℕ → ℕ → List A → Option (List (List A))
  chunk_loop zero max_len overlap start xs = none
  chunk_loop (suc fuel) max_len overlap start xs =
      let end = min (start + max_len) (length xs) in
      let rest = chunk_loop fuel max_len overlap (end - min overlap end) xs in
      if ltb start (length xs)
      then (if eqb end (length xs)
          then some (slice start end xs ∷ [])
          else push_front (slice start end xs) rest)
      else some []

  unfoldable pub chunk_list : ℕ → ChunkConfig → List A → Option (List (List A))
  unfolding chunk_loop
  chunk_list fuel config [] = some []
  chunk_list fuel config (x ∷ xs) =
      if leb (length (x ∷ xs)) config.max_len
      then some ((x ∷ xs) ∷ [])
      else chunk_loop fuel config.max_len config.overlap 0 (x ∷ xs)

unfoldable pub semantic_chunk_with : ℕ → ChunkConfig → String → Option (List String)
unfolding chunk_list chars from_chars
semantic_chunk_with fuel config text =
    map_option (map from_chars) (chunk_list fuel config (chars text))

unfoldable pub semantic_chunk_config : ℕ → ℕ → ChunkConfig
semantic_chunk_config max_len overlap = record { max_len = max_len; overlap = overlap }

unfoldable pub semantic_chunk : ℕ → String → Option (List String)
unfolding semantic_chunk_with
semantic_chunk fuel text = semantic_chunk_with fuel (record { max_len = 2500; overlap = 400 }) text

-- ===== src/Parsers/Tests.antt =====
-- Small chunks.
use cortex_engine.Common.{ℕ, ◌≤◌, ◌≡◌, refl, none, some, List, [], ◌∷◌, length, arith, All}
use cortex_engine.Parsers.Chunking.{ChunkConfig, chunk_list, chunk_loop, semantic_chunk_with}
use cortex_engine.Parsers.Cover.{stitch, chunk_list_covers, chunk_loop_stuck}

abbrev config : ChunkConfig
config = record { max_len = 4; overlap = 1 }

cut : semantic_chunk_with 9 config "abcdefghi" ≡ some ("abcd" ∷ "defg" ∷ "ghi" ∷ [])
unfolding semantic_chunk_with
cut = refl

abbrev numbers : List ℕ
numbers = 1 ∷ 2 ∷ 3 ∷ 4 ∷ 5 ∷ 6 ∷ []

chunk_list_covers_example :
    (chunks : List (List ℕ)) × (chunk_list (length numbers) config numbers ≡ some chunks)
    × (stitch 1 chunks ≡ numbers)
    × All (λ c. length c ≤ 4) chunks
chunk_list_covers_example = chunk_list_covers config numbers (omega arith)

chunk_loop_stuck_example : chunk_loop 100 4 4 0 numbers ≡ none
chunk_loop_stuck_example = chunk_loop_stuck 100 4 4 numbers (omega arith) (omega arith)

-- ===== src/Session/Watermark.antt =====
-- `latestChunkEnd` of packages/session/src/context-packing.ts: the last message that a chunk stands for.
use snapdragon.Prelude.{ℕ, ◌≤◌, ◌≡◌, refl, List, [], ◌∷◌, ◌++◌, All, arith}
use snapdragon.Prelude.Sorting.{sort, All-sort, sort-All}
use snapdragon.Session.Records.{ChunkRecord}
use snapdragon.Session.Packing.{max, latest_chunk_end_from, latest_chunk_end}
use snapdragon.Session.Window.{is_earlier, sorted_chunks}

least :
    (m acc : ℕ) (chunks : List ChunkRecord)
    → acc ≤ m
    → All (λ c. c.range_end ≤ m) chunks
    → latest_chunk_end_from acc chunks ≤ m
least m acc [] h k = h
least m acc (c ∷ chunks) h (p, k) = least m (max acc c.range_end) chunks (ground (arith, h, p)) k

upper_acc : (acc : ℕ) (chunks : List ChunkRecord) → acc ≤ latest_chunk_end_from acc chunks
upper_acc acc [] = omega arith
upper_acc acc (c ∷ chunks) =
    let rest = upper_acc (max acc c.range_end) chunks in
    let here : acc ≤ max acc c.range_end = ground arith in omega (arith, rest, here)

upper :
    (acc : ℕ) (chunks : List ChunkRecord)
    → All (λ c. c.range_end ≤ latest_chunk_end_from acc chunks) chunks
upper acc [] = tt
upper acc (c ∷ chunks) =
    let rest = upper_acc (max acc c.range_end) chunks in
    let here : c.range_end ≤ max acc c.range_end = ground arith in
    (omega (arith, rest, here), upper (max acc c.range_end) chunks)

-- No chunk ends after the watermark, and it is at most any bound on the ends of the chunks.
pub latest_chunk_end-upper :
    (chunks : List ChunkRecord) → All (λ c. c.range_end ≤ latest_chunk_end chunks) chunks
unfolding latest_chunk_end
latest_chunk_end-upper chunks = upper 0 chunks

pub latest_chunk_end-least :
    (m : ℕ) (chunks : List ChunkRecord)
    → All (λ c. c.range_end ≤ m) chunks
    → latest_chunk_end chunks ≤ m
unfolding latest_chunk_end
latest_chunk_end-least m chunks h = least m 0 chunks (omega arith) h

-- The order of the chunks does not matter.
pub latest_chunk_end-sort :
    (chunks : List ChunkRecord) → latest_chunk_end (sorted_chunks chunks) ≡ latest_chunk_end chunks
unfolding sorted_chunks
latest_chunk_end-sort chunks =
    let above =
      latest_chunk_end-least _ (sort is_earlier chunks)
        (All-sort is_earlier _ chunks (latest_chunk_end-upper chunks)) in
    let below =
      latest_chunk_end-least _ chunks
        (sort-All is_earlier _ chunks (latest_chunk_end-upper (sort is_earlier chunks))) in
    omega (arith, above, below)

append_from :
    (acc : ℕ) (chunks : List ChunkRecord) (c : ChunkRecord)
    → latest_chunk_end_from acc (chunks ++ c ∷ [])
      ≡ max (latest_chunk_end_from acc chunks) c.range_end
append_from acc [] c = refl
append_from acc (d ∷ chunks) c = append_from (max acc d.range_end) chunks c

pub latest_chunk_end-append :
    (chunks : List ChunkRecord) (c : ChunkRecord)
    → latest_chunk_end (chunks ++ c ∷ []) ≡ max (latest_chunk_end chunks) c.range_end
unfolding latest_chunk_end
latest_chunk_end-append chunks c = append_from 0 chunks c

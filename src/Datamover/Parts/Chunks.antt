-- ===== src/Datamover/Parts/Chunks.antt =====
-- datamover/pkg/hw/obs/obsmover.go, `DownloadRange`: the loop that reads the body of the answer. A chunk is
-- what one `Read` gives; it is put at the start of the buffer, wherever the last one ended.
use multi_cloud.Common.{ℕ, ◌+◌, ◌≡◌, ◌∙◌, ap, arith, List, [], ◌∷◌, ◌++◌, drop, length, snoc}
use multi_cloud.Datamover.Types.{Buf}

unfoldable pub read_into : Buf → Buf → Buf
read_into chunk buf = chunk ++ drop (length chunk) buf

-- The bytes that are counted, and the buffer.
unfoldable pub read_chunks : List Buf → ℕ → Buf → ℕ × Buf
unfolding read_into
read_chunks [] read_count buf = (read_count, buf)
read_chunks (chunk ∷ chunks) read_count buf =
    read_chunks chunks (read_count + length chunk) (read_into chunk buf)

abbrev counted : List Buf → ℕ
counted [] = 0
counted (chunk ∷ chunks) = length chunk + counted chunks

-- However the body comes in chunks, all their bytes are counted, and the buffer starts with the last
-- chunk: a body that comes in several is not what the buffer holds, and the count does not tell.
pub read_chunks-snoc :
    (chunks : List Buf) (last : Buf) (n : ℕ) (buf : Buf)
    → read_chunks (snoc chunks last) n buf
      ≡ (n + counted chunks + length last, read_into last (read_chunks chunks n buf).1)
unfolding read_chunks
read_chunks-snoc [] last n buf = ap (λ k. (k + length last, read_into last buf)) (omega arith)
read_chunks-snoc (chunk ∷ chunks) last n buf =
    read_chunks-snoc chunks last (n + length chunk) (read_into chunk buf)
    ∙ ap (λ k. (k, read_into last (read_chunks chunks (n + length chunk) (read_into chunk buf)).1))
        (omega arith)

-- ===== src/Core/Io.antt =====
-- crates/core/src/io.rs: the bounded read of a document. The file system is the parameter: opening,
-- the metadata and what reading the open file to its end yields.
use doc_bunker.Prelude.{
  ℕ, ◌+◌, ◌≤◌, ◌≡◌, Bool, not, some, none, List, ltb, leb, if◌then◌else◌, Result, ok, err, ok_or,
  ◌>>=◌, length, take, usize_max, arith, take_all, length-take, Result-cases, inl, inr,
}
use doc_bunker.Core.Error.{
  DocBunkerError, invalid_document, document_too_large, resource_limit_exceeded,
}

-- An open file: its metadata, and its bytes as they are when it is read, which is later.
pub record OpenFile : Type 0 where
  pub is_file : Result DocBunkerError Bool
  pub len : ℕ
  pub contents : Result DocBunkerError (List ℕ)

-- `file.take(limit).read_to_end`
abbrev pub read_limited : ℕ → Result DocBunkerError (List ℕ) → Result DocBunkerError (List ℕ)
read_limited limit (ok bytes) = ok (take limit bytes)
read_limited limit (err e) = err e

unfoldable pub read_document_file :
    Result DocBunkerError OpenFile → ℕ → Result DocBunkerError (List ℕ)
read_document_file opened max_size = do
  file ← opened
  regular ← file.is_file
  if not regular
      then err invalid_document
      else if ltb max_size file.len
      then err document_too_large
      else do
        limit ←
            ok_or resource_limit_exceeded
              (if leb (max_size + 1) usize_max then some (max_size + 1) else none)
        bytes ← read_limited limit file.contents
        if ltb max_size (length bytes) then err document_too_large else ok bytes

whole :
    (max_size : ℕ) (bytes : List ℕ)
    → length (take (max_size + 1) bytes) ≤ max_size
    → take (max_size + 1) bytes ≡ bytes
whole max_size bytes h =
    take_all (max_size + 1) bytes (omega (arith, length-take (max_size + 1) bytes))

-- A document that is read has at most the given size, and is the whole of what the file held when
-- it was read, even if the file had grown or shrunk since its metadata was taken.
pub read_document_file_whole :
    (file : OpenFile) (max_size : ℕ) (bytes : List ℕ)
    → read_document_file (ok file) max_size ≡ ok bytes
    → (length bytes ≤ max_size) × (file.contents ≡ ok bytes)
unfolding read_document_file
read_document_file_whole file max_size bytes e = elim (Result-cases file.contents) [
  | inl (held, c) ↦ let e' = simp c at e in ground (arith, whole max_size held)
  | inr (x, c) ↦ let e' = simp c at e in absurd (ground arith)
]

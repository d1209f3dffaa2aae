-- ===== src/Xv6/File/Chunks.antt =====
-- `filewrite` of an inode, in pieces that fit a transaction.
use os_projects.Base.{
  ℕ, zero, suc, ◌+◌, ◌-◌, ◌%◌, ◌^◌, ◌<◌, ◌≤◌, ◌≡◌, inl, inr, refl, ◌∙◌, true, false, ◌==◌, ltb,
  Option, some, arith, Bool-cases,
}
use os_projects.Xv6.File.{
  File, fd_inode, Outcome, count, max_bytes, moved, chunk, write_chunks, filewrite,
}

chunk_lem : (k : ℕ) → 0 < k → (0 < chunk k) × (chunk k ≤ k) × (chunk k ≤ max_bytes)
unfolding chunk
chunk_lem k h = ground arith

module _ {ℓ} {S : Type ℓ} (piperead pipewrite : ℕ → ℕ → ℕ → S → Outcome × S)
    (readi writei : ℕ → ℕ → ℕ → ℕ → S → Option ℕ × S)
    (full : (ip addr off n : ℕ) (s : S)
      → 0 < n
      → n ≤ max_bytes
      → (writei ip addr off n s).0 ≡ some n) where
  abbrev chunks : ℕ → File → ℕ → ℕ → ℕ → S → Outcome × File × S
  chunks = write_chunks piperead pipewrite readi writei

  write_chunks_lem :
      (fuel : ℕ) (f : File) (addr i n : ℕ) (s : S)
      → i ≤ n
      → n < i + fuel
      → f.off < 2 ^ 32
      → ((chunks fuel f addr i n s).0 ≡ count n)
        × ((chunks fuel f addr i n s).1.off ≡ (f.off + (n - i)) % 2 ^ 32)
  unfolding write_chunks moved
  write_chunks_lem zero f addr i n s h l b = absurd (omega arith)
  write_chunks_lem (suc fuel) f addr i n s h l b = elim (Bool-cases (ltb i n)) [
    | inr e ↦ rw e (refl, omega (arith, at_end e))
    | inl e ↦
        let (a, c, d) = chunk_lem (n - i) (ground arith) in
        let w = full f.ip (addr + i) f.off (chunk (n - i)) s a d in
        let self : (chunk (n - i) == chunk (n - i)) ≡ true = ground arith in
        let f' = moved f (some (chunk (n - i))) in
        let s' = (writei f.ip (addr + i) f.off (chunk (n - i)) s).1 in
        let (o, p) =
          write_chunks_lem fuel f' addr (i + chunk (n - i)) n s' (omega arith) (omega arith)
            (omega arith) in
        rw (e, w, self) (o, p ∙ omega arith)
  ]
    where
      at_end : ltb i n ≡ false → i ≡ n
      at_end e = ground arith

  -- If `writei` writes all of every piece of at most `max_bytes` bytes, `filewrite` on a writable inode
  -- returns its count and moves the offset by it.
  filewrite_lem :
      (f : File) (addr n : ℕ) (s : S)
      → f.writable ≡ true
      → f.type ≡ fd_inode
      → f.off < 2 ^ 32
      → ((filewrite piperead pipewrite readi writei f addr n s).0 ≡ count n)
        × ((filewrite piperead pipewrite readi writei f addr n s).1.off ≡ (f.off + n) % 2 ^ 32)
  unfolding filewrite
  filewrite_lem f addr n s w t b =
      let (o, p) = write_chunks_lem (n + 1) f addr 0 n s (omega arith) (omega arith) b in
      rw (w, t) (o, p ∙ omega arith)

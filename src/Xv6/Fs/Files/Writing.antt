-- ===== src/Xv6/Fs/Files/Writing.antt =====
-- `writei` inside a file whose blocks are there, and `readi` after it.
use os_projects.Base.{
  ℕ, zero, suc, ◌+◌, ◌-◌, ◌*◌, ◌/◌, ◌%◌, ◌^◌, ◌≤◌, ◌<◌, ◌≡◌, ◌≢◌, refl, ap, sym, ◌∙◌, subst, false,
  ◌&&◌, ◌||◌, ◌==◌, ltb, if◌then◌else◌, List, [], ◌∷◌, Option, arith, get_or, take, drop, length,
  length-take, length-drop, take-append-drop, update, update_ne, update_self, ℕ_discrete,
}
use os_projects.Memory.{
  int_at, read_bytes, write_bytes, write_bytes_shift, write_bytes-append, write_bytes_outside,
  read_bytes-write_bytes, read_bytes_shift,
}
use os_projects.Xv6.Fs.{Fs, Inode, done, M, log_write, bsize}
use os_projects.Xv6.Fs.Files.{
  Io, count, t_dev, ndirect, nindirect, piece, write_loop, grow, readi, writei,
}
use os_projects.Xv6.Fs.Files.Reading.{
  block_of, content, IsMapped, bmap-mapped, piece_lem, readable, readi_lem,
}

-- The blocks of a file up to a size are different from each other and from its indirect block.
abbrev pub IsSeparate : Fs → ℕ → ℕ → Type 0
IsSeparate f i size =
    (bn : ℕ)
    → bn * bsize < size
    → (get_or (f.icache i).addrs ndirect 0 ≢ block_of f i bn)
      × ((k : ℕ) → k * bsize < size → bn ≢ k → block_of f i bn ≢ block_of f i k)

-- What a write into a block of the file leaves: the map of the blocks is the same.
abbrev rewritten : ℕ → ℕ → (ℕ → ℕ) → Fs → Fs
rewritten i bn m f = log_write (block_of f i bn) m f

block_of-rewritten :
    (i bn size k : ℕ) (m : ℕ → ℕ) (f : Fs)
    → IsSeparate f i size
    → bn * bsize < size
    → block_of (rewritten i bn m f) i k ≡ block_of f i k
unfolding log_write
block_of-rewritten i bn size k m f sep l =
    ap
      (λ (g : ℕ → ℕ).
        if ltb k ndirect then get_or (f.icache i).addrs k 0 else int_at g (4 * (k - ndirect)))
      (update_ne f.block (block_of f i bn) (get_or (f.icache i).addrs ndirect 0) m
        (λ e. (sep bn l).0 (sym e)))

rewritten-IsMapped :
    (i bn size : ℕ) (m : ℕ → ℕ) (f : Fs)
    → IsSeparate f i size
    → bn * bsize < size
    → IsMapped f i size
    → IsMapped (rewritten i bn m f) i size
unfolding log_write
rewritten-IsMapped i bn size m f sep l mapped k lk =
    let (a, b, c) = mapped k lk in
    (a, subst (λ b. b ≢ 0) (sym (block_of-rewritten i bn size k m f sep l)) b, c)

rewritten-IsSeparate :
    (i bn size : ℕ) (m : ℕ → ℕ) (f : Fs)
    → IsSeparate f i size
    → bn * bsize < size
    → IsSeparate (rewritten i bn m f) i size
unfolding log_write
rewritten-IsSeparate i bn size m f sep l k lk =
    let same = λ (j : ℕ). sym (block_of-rewritten i bn size j m f sep l) in
    (
      subst (λ b. get_or (f.icache i).addrs ndirect 0 ≢ b) (same k) (sep k lk).0,
      λ j lj ne.
          subst (λ b. b ≢ block_of (rewritten i bn m f) i j) (same k)
            (subst (λ b. block_of f i k ≢ b) (same j) ((sep k lk).1 j lj ne)),
    )

-- The contents of the file after some bytes are put into the block that has the offset `off`.
content-rewritten :
    (i off size : ℕ) (xs : List ℕ) (f : Fs) (o : ℕ)
    → IsSeparate f i size
    → off < size
    → length xs + off % bsize ≤ bsize
    → o < size
    → content
        (rewritten i
          (off / bsize)
          (write_bytes (f.block (block_of f i (off / bsize))) (off % bsize) xs)
          f)
        i
        o
      ≡ write_bytes (content f i) off xs o
unfolding log_write
content-rewritten i off size xs f o sep l short lo =
    ap (λ b. update f.block here m b (o % bsize))
      (block_of-rewritten i (off / bsize) size (o / bsize) m f sep (omega arith))
    ∙ elim (ℕ_discrete (off / bsize) (o / bsize)) [
      | yes e ↦
          ap (λ q. update f.block here m (block_of f i q) (o % bsize)) (sym e)
          ∙ ap (λ g. g (o % bsize)) (update_self f.block here m)
          ∙ write_bytes_shift (f.block here) (content f i) (off % bsize) off xs (o % bsize) o
              (omega arith) (ap (λ q. f.block (block_of f i q) (o % bsize)) e)
      | no ne ↦
          ap (λ g. g (o % bsize))
            (update_ne f.block here (block_of f i (o / bsize)) m
              ((sep (off / bsize) (omega arith)).1 (o / bsize) (omega arith) ne))
          ∙ sym (write_bytes_outside (content f i) off xs o (omega arith))
    ]
  where
    here : ℕ
    here = block_of f i (off / bsize)

    m : ℕ → ℕ
    m = write_bytes (f.block here) (off % bsize) xs

-- What the loop of `writei` leaves in a file: the bytes at their offsets, on the same blocks.
pub record Writes (i size off : ℕ) (src : List ℕ) (f g : Fs) : Type 0 where
  pub mapped : IsMapped g i size
  pub same_inodes : g.icache ≡ f.icache
  pub contents : (o : ℕ) → o < size → content g i o ≡ write_bytes (content f i) off src o

-- One round of the loop.
abbrev round_of : ℕ → ℕ → List ℕ → Fs → Fs
round_of i off src f =
    rewritten i (off / bsize)
      (write_bytes (f.block (block_of f i (off / bsize))) (off % bsize)
        (take (piece (length src) off) src))
      f

write_loop-suc :
    (fuel i off size : ℕ) (src : List ℕ) (f : Fs)
    → IsMapped f i size
    → 0 < length src
    → off + length src ≤ size
    → write_loop (suc fuel) i off src f
      ≡ write_loop fuel i
          (off + piece (length src) off)
          (drop (piece (length src) off) src)
          (round_of i off src f)
unfolding write_loop
write_loop-suc fuel i off size src f mapped pos l =
    let more : (length src == 0) ≡ false = ground arith in
    rw (more, bmap-mapped i (off / bsize) size f mapped (omega arith)) refl

Writes-round :
    (i off size : ℕ) (src : List ℕ) (f g : Fs)
    → IsMapped f i size
    → IsSeparate f i size
    → 0 < length src
    → off + length src ≤ size
    → Writes i size
        (off + piece (length src) off)
        (drop (piece (length src) off) src)
        (round_of i off src f)
        g
    → Writes i size off src f g
Writes-round i off size src f g mapped sep pos l w = record {
  mapped = w.mapped;
  same_inodes = w.same_inodes ∙ (unfold log_write in refl);
  contents = λ o lo. w.contents o lo ∙ joined o lo;
}
  where
    p : ℕ
    p = piece (length src) off

    inside : length (take p src) + off % bsize ≤ bsize
    inside = let (a, b, c) = piece_lem (length src) off pos in omega (arith, length-take p src)

    at : off + length (take p src) ≡ off + p
    at = let (a, b, c) = piece_lem (length src) off pos in omega (arith, length-take p src)

    joined :
        (o : ℕ)
        → o < size
        → write_bytes (content (round_of i off src f) i) (off + p) (drop p src) o
          ≡ write_bytes (content f i) off src o
    joined o lo =
        write_bytes_shift (content (round_of i off src f) i)
          (write_bytes (content f i) off (take p src)) (off + p) (off + p) (drop p src) o o refl
          (content-rewritten i off size (take p src) f o sep (omega arith) inside lo)
        ∙ ap (λ a. write_bytes (write_bytes (content f i) off (take p src)) a (drop p src) o)
            (sym at)
        ∙ ap (λ m. m o) (sym (write_bytes-append (content f i) off (take p src) (drop p src)))
        ∙ ap (λ xs. write_bytes (content f i) off xs o) (take-append-drop p src)

write_loop_lem :
    (fuel i off size : ℕ) (src : List ℕ) (f : Fs)
    → IsMapped f i size
    → IsSeparate f i size
    → length src < fuel
    → off + length src ≤ size
    → (g : Fs) × (write_loop fuel i off src f ≡ done (tt, g)) × Writes i size off src f g
write_loop_lem zero i off size src f mapped sep h l = absurd (omega arith)
write_loop_lem (suc fuel) i off size [] f mapped sep h l = (
  f,
  unfold write_loop in refl,
  record { mapped = mapped; same_inodes = refl; contents = λ o lo. unfold write_bytes in refl },
)
write_loop_lem (suc fuel) i off size (x ∷ xs) f mapped sep h l =
    let src = x ∷ xs in
    let p = piece (length src) off in
    let (a, b, c) = piece_lem (length src) off (omega arith) in
    let m = write_bytes (f.block (block_of f i (off / bsize))) (off % bsize) (take p src) in
    let (g, e, w) =
      write_loop_lem fuel i (off + p) size (drop p src) (round_of i off src f)
        (rewritten-IsMapped i (off / bsize) size m f sep (omega arith) mapped)
        (rewritten-IsSeparate i (off / bsize) size m f sep (omega arith))
        (omega (arith, length-drop p src)) (omega (arith, length-drop p src)) in
    (
      g,
      write_loop-suc fuel i off size src f mapped (omega arith) l ∙ e,
      Writes-round i off size src f g mapped sep (omega arith) l w,
    )

grow-inside : (i n off : ℕ) (g : Fs) → off ≤ (g.icache i).size → grow i n off g ≡ g
unfolding grow
grow-inside i n off g l =
    let t : (ltb 0 n && ltb (g.icache i).size off) ≡ false = ground arith in rw t refl

module _ (dev_read : ℕ → Option (ℕ → ℕ → M Io)) (dev_write : ℕ → Option (ℕ → List ℕ → M Io)) where
  -- `writei` of bytes that lie inside a file whose blocks are there and different returns their number,
  -- changes no inode, and puts the bytes at their offsets and leaves all other bytes of the file.
  pub writei_lem :
      (i off : ℕ) (src : List ℕ) (f : Fs)
      → IsMapped f i (f.icache i).size
      → IsSeparate f i (f.icache i).size
      → (f.icache i).type ≢ t_dev
      → off + length src ≤ (f.icache i).size
      → (f.icache i).size ≤ (ndirect + nindirect) * bsize
      → (g : Fs) × (writei dev_read dev_write i src off f ≡ done (count [] (length src), g))
        × Writes i (f.icache i).size off src f g
  unfolding writei
  writei_lem i off src f mapped sep file l max =
      let t : ((f.icache i).type == t_dev) ≡ false = ground arith in
      let t' : (ltb (f.icache i).size off || ltb ((off + length src) % 2 ^ 32) off) ≡ false =
        ground arith in
      let t'' : ltb ((ndirect + nindirect) * bsize) (off + length src) ≡ false = ground arith in
      let (g, e, w) =
        write_loop_lem (length src + 1) i off (f.icache i).size src f mapped sep (omega arith) l in
      (
        g,
        rw (t, t', t'', e)
            (ap (λ h. done (count [] (length src), h))
              (grow-inside i (length src) (off + length src) g
                (omega (arith, ap (λ (t : ℕ → Inode). (t i).size) w.same_inodes)))),
        w,
      )

  -- `readi` after that `writei`, of the same number of bytes at the same offset, returns the bytes.
  pub readi-writei :
      (i off : ℕ) (src : List ℕ) (f : Fs)
      → IsMapped f i (f.icache i).size
      → IsSeparate f i (f.icache i).size
      → (f.icache i).type ≢ t_dev
      → off + length src ≤ (f.icache i).size
      → (f.icache i).size ≤ (ndirect + nindirect) * bsize
      → (g : Fs) × (writei dev_read dev_write i src off f ≡ done (count [] (length src), g))
        × (readi dev_read dev_write i off (length src) g ≡ done (count src (length src), g))
  readi-writei i off src f mapped sep file l max =
      let (g, e, w) = writei_lem i off src f mapped sep file l max in
      let n = length src in
      let size : (g.icache i).size ≡ (f.icache i).size =
        ap (λ (t : ℕ → Inode). (t i).size) w.same_inodes in
      let type : (g.icache i).type ≡ (f.icache i).type =
        ap (λ (t : ℕ → Inode). (t i).type) w.same_inodes in
      let whole : readable g i off n ≡ n = ground arith in
      let bytes : read_bytes (content g i) off n ≡ src =
        read_bytes_shift (content g i) (write_bytes (content f i) off src) off off n
          (λ j lj. w.contents (off + j) (omega arith))
        ∙ read_bytes-write_bytes (content f i) off src in
      (
        g,
        e,
        readi_lem dev_read dev_write i off n g (subst (IsMapped g i) (sym size) w.mapped)
              (subst (λ t. t ≢ t_dev) (sym type) file) (omega arith) (omega arith)
            ∙ ap (λ k. done (count (read_bytes (content g i) off k) k, g)) whole
            ∙ ap (λ xs. done (count xs n, g)) bytes,
      )

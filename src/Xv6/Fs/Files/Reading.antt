-- ===== src/Xv6/Fs/Files/Reading.antt =====
-- `readi` of a file as a map from offsets to bytes.
use os_projects.Base.{
  ℕ, zero, suc, ◌+◌, ◌-◌, ◌*◌, ◌/◌, ◌%◌, ◌^◌, ◌≤◌, ◌<◌, ◌≡◌, ◌≢◌, ◌⊎◌, inl, inr, refl, ap, sym, ◌∙◌,
  true, false, ◌||◌, ◌==◌, ltb, if◌then◌else◌, List, ◌++◌, Option, arith, Bool-cases, get_or,
}
use os_projects.Memory.{int_at, read_bytes, read_bytes-append, read_bytes_shift}
use os_projects.Xv6.Fs.{Fs, done, M, bind, bsize}
use os_projects.Xv6.Fs.Files.{
  Io, count, t_dev, ndirect, nindirect, addr_at, indirect_at, bmap, piece, read_loop, readi,
}

-- The block with a number in a file; 0 if it has none.
abbrev pub block_of : Fs → ℕ → ℕ → ℕ
block_of f i bn =
    if ltb bn ndirect
    then get_or (f.icache i).addrs bn 0
    else int_at (f.block (get_or (f.icache i).addrs ndirect 0)) (4 * (bn - ndirect))

-- The byte at an offset.
abbrev pub content : Fs → ℕ → ℕ → ℕ
content f i o = f.block (block_of f i (o / bsize)) (o % bsize)

-- Every block of a file up to a size is there, and the indirect block, if one of them is in it.
abbrev pub IsMapped : Fs → ℕ → ℕ → Type 0
IsMapped f i size =
    (bn : ℕ)
    → bn * bsize < size
    → (bn < ndirect + nindirect)
      × (block_of f i bn ≢ 0)
      × ((bn < ndirect) ⊎ (get_or (f.icache i).addrs ndirect 0 ≢ 0))

addr_at-used :
    (i n : ℕ) (f : Fs)
    → get_or (f.icache i).addrs n 0 ≢ 0
    → addr_at i n f ≡ done (get_or (f.icache i).addrs n 0, f)
unfolding addr_at
addr_at-used i n f h =
    let t : (get_or (f.icache i).addrs n 0 == 0) ≡ false = ground arith in rw t refl

indirect_at-used :
    (b n : ℕ) (f : Fs)
    → int_at (f.block b) (4 * n) ≢ 0
    → indirect_at b n f ≡ done (int_at (f.block b) (4 * n), f)
unfolding indirect_at
indirect_at-used b n f h =
    let t : (int_at (f.block b) (4 * n) == 0) ≡ false = ground arith in rw t refl

pub bmap-mapped :
    (i bn size : ℕ) (f : Fs)
    → IsMapped f i size
    → bn * bsize < size
    → bmap i bn f ≡ done (block_of f i bn, f)
unfolding bmap
bmap-mapped i bn size f mapped l = elim (Bool-cases (ltb bn ndirect)) [
  | inl t ↦ let used = rw t at (mapped bn l).1 in rw t (addr_at-used i bn f used)
  | inr t ↦
      let (a, used, ind) = mapped bn l in
      let inside : ltb (bn - ndirect) nindirect ≡ true = ground arith in
      let used' = rw t at used in
      let there : get_or (f.icache i).addrs ndirect 0 ≢ 0 = elim ind [
        | inl d ↦ absurd (ground arith)
        | inr e ↦ e
      ] in
      rw (t, inside)
        (ap (λ r. bind r (λ (b, g). indirect_at b (bn - ndirect) g))
            (addr_at-used i ndirect f there)
          ∙ indirect_at-used (get_or (f.icache i).addrs ndirect 0) (bn - ndirect) f used')
]

pub piece_lem :
    (left off : ℕ)
    → 0 < left
    → (0 < piece left off) × (piece left off ≤ left) × (piece left off + off % bsize ≤ bsize)
unfolding piece
piece_lem left off h = ground arith

-- Inside a block the contents of the file are those of the block.
content-block :
    (f : Fs) (i off j : ℕ)
    → j + off % bsize < bsize
    → f.block (block_of f i (off / bsize)) (off % bsize + j) ≡ content f i (off + j)
content-block f i off j l =
    let e : (off + j) / bsize ≡ off / bsize = omega arith in
    let e' : (off + j) % bsize ≡ off % bsize + j = omega arith in
    ap (λ q. f.block (block_of f i q) (off % bsize + j)) (sym e)
    ∙ ap (λ r. f.block (block_of f i ((off + j) / bsize)) r) (sym e')

read_loop-suc :
    (fuel i off left size : ℕ) (f : Fs) (rest : List ℕ)
    → IsMapped f i size
    → 0 < left
    → off + left ≤ size
    → read_loop fuel i (off + piece left off) (left - piece left off) f ≡ done (rest, f)
    → read_loop (suc fuel) i off left f
      ≡ done (
        read_bytes (f.block (block_of f i (off / bsize))) (off % bsize) (piece left off) ++ rest,
        f,
      )
unfolding read_loop
read_loop-suc fuel i off left size f rest mapped pos l e =
    let more : (left == 0) ≡ false = ground arith in
    let here = bmap-mapped i (off / bsize) size f mapped (omega arith) in rw (more, here, e) refl

-- The loop of `readi` leaves the state as it is, where the blocks are there.
read_loop_lem :
    (fuel i off left size : ℕ) (f : Fs)
    → IsMapped f i size
    → left < fuel
    → off + left ≤ size
    → read_loop fuel i off left f ≡ done (read_bytes (content f i) off left, f)
unfolding read_loop
read_loop_lem zero i off left size f mapped h l = absurd (omega arith)
read_loop_lem (suc fuel) i off zero size f mapped h l = unfold read_bytes in refl
read_loop_lem (suc fuel) i off (suc left) size f mapped h l =
    let p = piece (suc left) off in
    let (pos, small, inside) = piece_lem (suc left) off (omega arith) in
    let split : p + (suc left - p) ≡ suc left = omega arith in
    read_loop-suc fuel i off (suc left) size f (read_bytes (content f i) (off + p) (suc left - p))
      mapped (omega arith) l
      (read_loop_lem fuel i (off + p) (suc left - p) size f mapped (omega arith) (omega arith))
    ∙ ap (λ xs. done (xs ++ read_bytes (content f i) (off + p) (suc left - p), f))
        (read_bytes_shift (f.block (block_of f i (off / bsize))) (content f i) (off % bsize) off p
          (λ j lj. content-block f i off j (omega arith)))
    ∙ ap (λ xs. done (xs, f)) (sym (read_bytes-append (content f i) off p (suc left - p)))
    ∙ ap (λ k. done (read_bytes (content f i) off k, f)) split

-- How many bytes `readi` reads: up to the end of the file.
abbrev pub readable : Fs → ℕ → ℕ → ℕ → ℕ
readable f i off n = if ltb (f.icache i).size (off + n) then (f.icache i).size - off else n

module _ (dev_read : ℕ → Option (ℕ → ℕ → M Io)) (dev_write : ℕ → Option (ℕ → List ℕ → M Io)) where
  -- `readi` of a file whose blocks are there up to its size, from an offset in it and of a number of bytes
  -- whose sum is less than 2^32: the bytes of the file from the offset on, as many as asked for or up to
  -- the end; the state stays as it is.
  pub readi_lem :
      (i off n : ℕ) (f : Fs)
      → IsMapped f i (f.icache i).size
      → (f.icache i).type ≢ t_dev
      → off ≤ (f.icache i).size
      → off + n < 2 ^ 32
      → readi dev_read dev_write i off n f
        ≡ done (count (read_bytes (content f i) off (readable f i off n)) (readable f i off n), f)
  unfolding readi
  readi_lem i off n f mapped file l w =
      let t : ((f.icache i).type == t_dev) ≡ false = ground arith in
      let t' : (ltb (f.icache i).size off || ltb ((off + n) % 2 ^ 32) off) ≡ false = ground arith in
      let bound : off + readable f i off n ≤ (f.icache i).size = ground arith in
      rw (t, t')
        (ap (λ r. bind r (λ (bytes, g). done (count bytes (readable f i off n), g)))
          (read_loop_lem (readable f i off n + 1) i off (readable f i off n) (f.icache i).size f
            mapped (omega arith) bound))

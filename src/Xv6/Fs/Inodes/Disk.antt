-- ===== src/Xv6/Fs/Inodes/Disk.antt =====
-- An inode on the disk: `iupdate`, and what `ilock` reads later.
use os_projects.Base.{
  ℕ, ◌+◌, ◌*◌, ◌%◌, ◌^◌, ◌≤◌, ◌<◌, ◌≡◌, ◌≢◌, ◌⊎◌, refl, ap, sym, ◌∙◌, subst, true, false, ◌==◌,
  List, ◌++◌, length, All, arith, update, update_self, update-update_back,
}
use os_projects.Memory.{
  int_at, read_ints, write_bytes, bytes_of, bytes_of_ints, write_bytes-append, write_bytes_outside,
  int_at_outside, int_at-bytes_of, read_ints-bytes_of_ints,
}
use os_projects.Xv6.Fs.{Fs, Inode, done, log_write, bread}
use os_projects.Xv6.Fs.Inodes.{
  put_inode, iblock, short_at, bytes_of_short, dinode_bytes, iupdate, read_dinode, load_inode,
}

-- The fields fit their places on the disk.
abbrev pub IsStored : Inode → Type 0
IsStored ip =
    (ip.type < 2 ^ 16)
    × (ip.major < 2 ^ 16)
    × (ip.minor < 2 ^ 16)
    × (ip.nlink < 2 ^ 16)
    × (ip.size < 2 ^ 32)
    × (length ip.addrs ≡ 13)
    × All (λ w. w < 2 ^ 32) ip.addrs

short_at-bytes_of_short :
    (m : ℕ → ℕ) (a w : ℕ) → w < 2 ^ 16 → short_at (write_bytes m a (bytes_of_short w)) a ≡ w
unfolding bytes_of_short write_bytes
short_at-bytes_of_short m a w h = ground arith

short_at_outside :
    (m : ℕ → ℕ) (a : ℕ) (xs : List ℕ) (j : ℕ)
    → (j + 2 ≤ a) ⊎ (a + length xs ≤ j)
    → short_at (write_bytes m a xs) j ≡ short_at m j
short_at_outside m a xs j h = omega (
  arith,
  write_bytes_outside m a xs j (omega arith),
  write_bytes_outside m a xs (j + 1) (omega arith),
)

-- A short in front of other bytes is read back, and the rest is written after it.
write_bytes-short :
    (m : ℕ → ℕ) (a w : ℕ) (xs : List ℕ)
    → write_bytes m a (bytes_of_short w ++ xs)
      ≡ write_bytes (write_bytes m a (bytes_of_short w)) (a + 2) xs
write_bytes-short m a w xs =
    let e : a + length (bytes_of_short w) ≡ a + 2 = unfold bytes_of_short in refl in
    write_bytes-append m a (bytes_of_short w) xs
    ∙ ap (λ b. write_bytes (write_bytes m a (bytes_of_short w)) b xs) e

short-first :
    (m : ℕ → ℕ) (a w : ℕ) (xs : List ℕ)
    → w < 2 ^ 16
    → short_at (write_bytes m a (bytes_of_short w ++ xs)) a ≡ w
short-first m a w xs h =
    ap (λ n. short_at n a) (write_bytes-short m a w xs)
    ∙ short_at_outside (write_bytes m a (bytes_of_short w)) (a + 2) xs a (omega arith)
    ∙ short_at-bytes_of_short m a w h

int-first :
    (m : ℕ → ℕ) (a w : ℕ) (xs : List ℕ)
    → w < 2 ^ 32
    → (int_at (write_bytes m a (bytes_of w ++ xs)) a ≡ w)
      × (write_bytes m a (bytes_of w ++ xs) ≡ write_bytes (write_bytes m a (bytes_of w)) (a + 4) xs)
int-first m a w xs h =
    let e : a + length (bytes_of w) ≡ a + 4 = unfold bytes_of in refl in
    let split : write_bytes m a (bytes_of w ++ xs)
        ≡ write_bytes (write_bytes m a (bytes_of w)) (a + 4) xs =
      write_bytes-append m a (bytes_of w) xs
      ∙ ap (λ b. write_bytes (write_bytes m a (bytes_of w)) b xs) e in
    (
      ap (λ n. int_at n a) split
          ∙ int_at_outside (write_bytes m a (bytes_of w)) (a + 4) xs a (omega arith)
          ∙ int_at-bytes_of m a w h,
      split,
    )

-- What is read back of an inode.
read_dinode-dinode_bytes :
    (m : ℕ → ℕ) (a : ℕ) (ip jp : Inode)
    → IsStored ip
    → read_dinode a (write_bytes m a (dinode_bytes ip)) jp ≡ record jp {
      type = ip.type;
      major = ip.major;
      minor = ip.minor;
      nlink = ip.nlink;
      size = ip.size;
      addrs = ip.addrs;
      valid = true;
    }
unfolding read_dinode dinode_bytes
read_dinode-dinode_bytes m a ip jp (ht, hma, hmi, hn, hs, hl, hd) =
    let ints = bytes_of_ints ip.addrs in
    let x5 = bytes_of ip.size ++ ints in
    let x4 = bytes_of_short ip.nlink ++ x5 in
    let x3 = bytes_of_short ip.minor ++ x4 in
    let x2 = bytes_of_short ip.major ++ x3 in
    let m1 = write_bytes m a (bytes_of_short ip.type) in
    let m2 = write_bytes m1 (a + 2) (bytes_of_short ip.major) in
    let m3 = write_bytes m2 (a + 4) (bytes_of_short ip.minor) in
    let m4 = write_bytes m3 (a + 6) (bytes_of_short ip.nlink) in
    let m5 = write_bytes m4 (a + 8) (bytes_of ip.size) in
    let s1 : write_bytes m a (bytes_of_short ip.type ++ x2) ≡ write_bytes m1 (a + 2) x2 =
      write_bytes-short m a ip.type x2 in
    let s2 : write_bytes m1 (a + 2) x2 ≡ write_bytes m2 (a + 4) x3 =
      write_bytes-short m1 (a + 2) ip.major x3 ∙ ap (λ b. write_bytes m2 b x3) (omega arith) in
    let s3 : write_bytes m2 (a + 4) x3 ≡ write_bytes m3 (a + 6) x4 =
      write_bytes-short m2 (a + 4) ip.minor x4 ∙ ap (λ b. write_bytes m3 b x4) (omega arith) in
    let s4 : write_bytes m3 (a + 6) x4 ≡ write_bytes m4 (a + 8) x5 =
      write_bytes-short m3 (a + 6) ip.nlink x5 ∙ ap (λ b. write_bytes m4 b x5) (omega arith) in
    let s5 : write_bytes m4 (a + 8) x5 ≡ write_bytes m5 (a + 12) ints =
      (int-first m4 (a + 8) ip.size ints hs).1 ∙ ap (λ b. write_bytes m5 b ints) (omega arith) in
    let e1 = short-first m a ip.type x2 ht in
    let e2 = ap (λ n. short_at n (a + 2)) s1 ∙ short-first m1 (a + 2) ip.major x3 hma in
    let e3 = ap (λ n. short_at n (a + 4)) (s1 ∙ s2) ∙ short-first m2 (a + 4) ip.minor x4 hmi in
    let e4 = ap (λ n. short_at n (a + 6)) (s1 ∙ s2 ∙ s3) ∙ short-first m3 (a + 6) ip.nlink x5 hn in
    let e5 =
      ap (λ n. int_at n (a + 8)) (s1 ∙ s2 ∙ s3 ∙ s4) ∙ (int-first m4 (a + 8) ip.size ints hs).0 in
    let e6 : read_ints 13 (a + 12) (write_bytes m a (bytes_of_short ip.type ++ x2)) ≡ ip.addrs =
      ap (read_ints 13 (a + 12)) (s1 ∙ s2 ∙ s3 ∙ s4 ∙ s5)
      ∙ subst (λ n. read_ints n (a + 12) (write_bytes m5 (a + 12) ints) ≡ ip.addrs) hl
          (read_ints-bytes_of_ints m5 (a + 12) ip.addrs hd) in
    λ k. record jp {
      type = e1 k;
      major = e2 k;
      minor = e3 k;
      nlink = e4 k;
      size = e5 k;
      addrs = e6 k;
      valid = true;
    }

load_inode-invalid :
    (i : ℕ) (f : Fs) (ip : Inode)
    → (f.icache i).valid ≡ false
    → read_dinode ((f.icache i).inum % 8 * 64) (bread (iblock (f.icache i).inum f) f) (f.icache i)
      ≡ ip
    → ip.type ≢ 0
    → load_inode i f ≡ done (tt, put_inode i ip f)
unfolding load_inode
load_inode-invalid i f ip v e h = let t : (ip.type == 0) ≡ false = ground arith in rw (e, t, v) refl

-- The entry `jp` is for the same inode as `ip`, with the same references and lock, and no contents.
abbrev IsStale : Inode → Inode → Type 0
IsStale ip jp =
    (jp.valid ≡ false)
    × (jp.dev ≡ ip.dev)
    × (jp.inum ≡ ip.inum)
    × (jp.ref ≡ ip.ref)
    × (jp.lock ≡ ip.lock)

-- After `iupdate` of a valid inode that has a type and whose fields fit the disk, with any other contents in its
-- entry, which is marked invalid, `ilock` with the lock at hand reads the same inode back.
pub load_inode-iupdate :
    (i : ℕ) (f : Fs) (jp : Inode)
    → IsStored (f.icache i)
    → (f.icache i).valid ≡ true
    → (f.icache i).type ≢ 0
    → IsStale (f.icache i) jp
    → load_inode i (put_inode i jp (iupdate i f)) ≡ done (tt, iupdate i f)
unfolding iupdate log_write
load_inode-iupdate i f jp stored v file (nv, ed, en, er, el) =
    let ip = f.icache i in
    let b = iblock ip.inum f in
    let m = write_bytes (f.block b) (ip.inum % 8 * 64) (dinode_bytes ip) in
    let g = put_inode i jp (iupdate i f) in
    let self : g.icache i ≡ jp = update_self f.icache i jp in
    let same : record jp {
      type = ip.type;
      major = ip.major;
      minor = ip.minor;
      nlink = ip.nlink;
      size = ip.size;
      addrs = ip.addrs;
      valid = true;
    }
        ≡ ip =
      λ k. record ip { dev = ed k; inum = en k; ref = er k; lock = el k; valid = sym v k } in
    let read : read_dinode (ip.inum % 8 * 64) (update f.block b m b) jp ≡ ip =
      ap (λ n. read_dinode (ip.inum % 8 * 64) n jp) (update_self f.block b m)
      ∙ read_dinode-dinode_bytes (f.block b) (ip.inum % 8 * 64) ip jp stored
      ∙ same in
    let here : read_dinode (jp.inum % 8 * 64) (g.block (iblock jp.inum g)) jp ≡ ip =
      subst (λ n. read_dinode (n % 8 * 64) (g.block (iblock n g)) jp ≡ ip) (sym en) read in
    load_inode-invalid i g ip (ap (λ (x : Inode). x.valid) self ∙ nv)
      (subst (λ (x : Inode). read_dinode (x.inum % 8 * 64) (g.block (iblock x.inum g)) x ≡ ip)
        (sym self) here)
      file
    ∙ ap (λ t. done (tt, record (iupdate i f) { icache = t }))
        (update-update_back f.icache i jp ip refl)

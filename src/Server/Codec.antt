-- ===== src/Server/Codec.antt =====
-- `write_inode` and `read_inode` on the same image.
use os_projects.Base.{
  ℕ, zero, suc, ◌+◌, ◌-◌, ◌*◌, ◌%◌, ◌^◌, ◌≤◌, ◌<◌, ◌≡◌, ◌≢◌, ◌⊎◌, refl, ap, sym, ◌∙◌, subst, ◌++◌,
  true, false, ◌==◌, ltb, length, All, some, arith,
}
use os_projects.Server.{
  Server, Inode, read_inode, write_inode, inode_addr, inode_bytes, fswrite, fsread_int, bmaddr,
  mask, direct_ptrs, view,
}
use os_projects.Memory.{
  bytes_of, bytes_of_ints, int_at, read_ints, write_bytes, length-bytes_of_ints, write_bytes-append,
  int_at_outside, int_at-bytes_of, read_ints-bytes_of_ints,
}

-- The inode fits the 128 bytes of its slot.
abbrev pub IsStored : Inode → Type 0
IsStored nd =
    (nd.type < 2 ^ 32)
    × (nd.size < 2 ^ 32)
    × All (λ w. w < 2 ^ 32) nd.direct
    × (length nd.direct ≡ direct_ptrs)

-- The word of the bitmap that has the bit of the first inode lies outside the slot of the second.
abbrev pub IsApart : Server → ℕ → ℕ → Type 0
IsApart s i j =
    (bmaddr s.super.inode_bitmap_addr i + 4 ≤ inode_addr s j)
    ⊎ (inode_addr s j + 128 ≤ bmaddr s.super.inode_bitmap_addr i)

length-inode_bytes : (nd : Inode) → length (inode_bytes nd) ≡ 4 * length nd.direct + 8
unfolding inode_bytes bytes_of
length-inode_bytes nd = omega (arith, length-bytes_of_ints nd.direct)

pow_pos : (n : ℕ) → 1 ≤ 2 ^ n
pow_pos zero = omega arith
pow_pos (suc n) = omega (arith, pow_pos n)

mask_pos : (i : ℕ) → (mask i == 0) ≡ false
unfolding mask
mask_pos i = let p = pow_pos (32 - i % 32 - 1) in ground arith

-- The memory after an inode is written: first its type, then its size, then its pointers.
write_bytes-inode_bytes :
    (m : ℕ → ℕ) (a : ℕ) (nd : Inode)
    → write_bytes m a (inode_bytes nd)
      ≡ write_bytes
          (write_bytes (write_bytes m a (bytes_of nd.type)) (a + 4) (bytes_of nd.size))
          (a + 8)
          (bytes_of_ints nd.direct)
unfolding inode_bytes
write_bytes-inode_bytes m a nd =
    let m1 = write_bytes m a (bytes_of nd.type) in
    let m2 = write_bytes m1 (a + 4) (bytes_of nd.size) in
    let rest = bytes_of nd.size ++ bytes_of_ints nd.direct in
    let e1 : a + length (bytes_of nd.type) ≡ a + 4 = unfold bytes_of in refl in
    let e2 : a + 4 + length (bytes_of nd.size) ≡ a + 8 = unfold bytes_of in omega arith in
    write_bytes-append m a (bytes_of nd.type) rest
    ∙ ap (λ b. write_bytes m1 b rest) e1
    ∙ write_bytes-append m1 (a + 4) (bytes_of nd.size) (bytes_of_ints nd.direct)
    ∙ ap (λ b. write_bytes m2 b (bytes_of_ints nd.direct)) e2

abbrev inode_at : (ℕ → ℕ) → ℕ → Inode
inode_at m a = record {
  type = int_at m a;
  size = int_at m (a + 4);
  direct = read_ints direct_ptrs (a + 8) m;
}

inode_at-write_bytes :
    (m : ℕ → ℕ) (a : ℕ) (nd : Inode)
    → IsStored nd
    → inode_at (write_bytes m a (inode_bytes nd)) a ≡ nd
inode_at-write_bytes m a nd (ht, hs, hd, hl) =
    let m1 = write_bytes m a (bytes_of nd.type) in
    let m2 = write_bytes m1 (a + 4) (bytes_of nd.size) in
    let m3 = write_bytes m2 (a + 8) (bytes_of_ints nd.direct) in
    let t : int_at m3 a ≡ nd.type =
      int_at_outside m2 (a + 8) (bytes_of_ints nd.direct) a (omega arith)
      ∙ int_at_outside m1 (a + 4) (bytes_of nd.size) a (omega arith)
      ∙ int_at-bytes_of m a nd.type ht in
    let z : int_at m3 (a + 4) ≡ nd.size =
      int_at_outside m2 (a + 8) (bytes_of_ints nd.direct) (a + 4) (omega arith)
      ∙ int_at-bytes_of m1 (a + 4) nd.size hs in
    let d : read_ints direct_ptrs (a + 8) m3 ≡ nd.direct =
      subst (λ n. read_ints n (a + 8) m3 ≡ nd.direct) hl
        (read_ints-bytes_of_ints m2 (a + 8) nd.direct hd) in
    rw (write_bytes-inode_bytes m a nd) (rw (t, z, d) refl)

read_inode-used :
    (i : ℕ) (s : Server)
    → inode_addr s i < 2 ^ 31
    → fsread_int (bmaddr s.super.inode_bitmap_addr i) s ≢ 0
    → read_inode i s ≡ some (inode_at s.image (inode_addr s i))
unfolding read_inode view
read_inode-used i s low h =
    let used : (fsread_int (bmaddr s.super.inode_bitmap_addr i) s == 0) ≡ false = ground arith in
    let seeks : ltb (inode_addr s i) (2 ^ 31) ≡ true = ground arith in
    rw (used, mask_pos i, seeks) refl

-- A write takes effect at the address of an inode itself, which is an unsigned int.
written :
    (i : ℕ) (nd : Inode) (s : Server)
    → (write_inode i nd s).image ≡ write_bytes s.image (inode_addr s i) (inode_bytes nd)
unfolding write_inode fswrite
written i nd s =
    let a : inode_addr s i % 2 ^ 32 ≡ inode_addr s i = omega arith in
    ap (λ b. write_bytes s.image b (inode_bytes nd)) a

word_outside :
    (i j : ℕ) (nd : Inode) (s : Server)
    → IsStored nd
    → IsApart s i j
    → bmaddr s.super.inode_bitmap_addr i < 2 ^ 31
    → fsread_int (bmaddr s.super.inode_bitmap_addr i) (write_inode j nd s)
      ≡ fsread_int (bmaddr s.super.inode_bitmap_addr i) s
unfolding fsread_int view
word_outside i j nd s (ht, hs, hd, hl) apart low =
    let len : length (inode_bytes nd) ≡ 128 = omega (arith, length-inode_bytes nd, hl) in
    let w = bmaddr s.super.inode_bitmap_addr i in
    let same : w % 2 ^ 32 ≡ w = omega arith in
    let seeks : ltb w (2 ^ 31) ≡ true = ground arith in
    rw (same, seeks, written j nd s)
      (int_at_outside s.image (inode_addr s j) (inode_bytes nd) w (omega arith))

-- `read_inode` returns the inode that `write_inode` wrote for that number, if its fields are 32-bit
-- values, the word of the bitmap with its bit is not 0 and lies outside the slot of the inode, and
-- both addresses are less than 2^31.
pub read_inode-write_inode :
    (i : ℕ) (nd : Inode) (s : Server)
    → IsStored nd
    → IsApart s i i
    → inode_addr s i < 2 ^ 31
    → bmaddr s.super.inode_bitmap_addr i < 2 ^ 31
    → fsread_int (bmaddr s.super.inode_bitmap_addr i) s ≢ 0
    → read_inode i (write_inode i nd s) ≡ some nd
read_inode-write_inode i nd s h apart low low' used =
    let used' : fsread_int (bmaddr s.super.inode_bitmap_addr i) (write_inode i nd s) ≢ 0 =
      subst (λ w. w ≢ 0) (sym (word_outside i i nd s h apart low')) used in
    let there : inode_at (write_inode i nd s).image (inode_addr s i) ≡ nd =
      rw (written i nd s) (inode_at-write_bytes s.image (inode_addr s i) nd h) in
    read_inode-used i (write_inode i nd s) (unfold write_inode fswrite in low)
      (unfold write_inode fswrite in used')
    ∙ unfold write_inode fswrite in ap some there

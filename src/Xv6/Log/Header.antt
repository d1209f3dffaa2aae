-- ===== src/Xv6/Log/Header.antt =====
-- The header block: what `write_head` writes there and `read_head` reads back.
use os_projects.Base.{
  ℕ, zero, suc, ◌+◌, ◌<◌, ◌≡◌, refl, ap, ◌∙◌, update, update_ne, update_self, arith,
}
use os_projects.Xv6.Log.{Log, Block, copy_words, bread, bwrite, write_head, read_head}

-- The words below the target range stay as they are.
copy_words_below :
    (k : ℕ) (dst : Block) (d : ℕ) (src : Block) (o j : ℕ)
    → j < d
    → copy_words k dst d src o j ≡ dst j
unfolding copy_words
copy_words_below zero dst d src o j h = refl
copy_words_below (suc k) dst d src o j h =
    copy_words_below k (update dst d (src o)) (d + 1) src (o + 1) j (omega arith)
    ∙ update_ne dst d j (src o) (omega arith)

-- The words of the target range are those of the source.
copy_words_in :
    (k : ℕ) (dst : Block) (d : ℕ) (src : Block) (o i : ℕ)
    → i < k
    → copy_words k dst d src o (d + i) ≡ src (o + i)
unfolding copy_words
copy_words_in zero dst d src o i h = elim h [ ]
copy_words_in (suc k) dst d src o zero h =
    let e : d + 0 ≡ d = omega arith in
    let f : o ≡ o + 0 = omega arith in
    ap (copy_words k (update dst d (src o)) (d + 1) src (o + 1)) e
    ∙ copy_words_below k (update dst d (src o)) (d + 1) src (o + 1) d (omega arith)
    ∙ update_self dst d (src o)
    ∙ ap src f
copy_words_in (suc k) dst d src o (suc i) h =
    let e : d + suc i ≡ (d + 1) + i = omega arith in
    let f : (o + 1) + i ≡ o + suc i = omega arith in
    ap (copy_words k (update dst d (src o)) (d + 1) src (o + 1)) e
    ∙ copy_words_in k (update dst d (src o)) (d + 1) src (o + 1) i (omega arith)
    ∙ ap src f

-- The header that `write_head` makes of `n` and the block numbers, over the old one.
abbrev pub header : ℕ → (ℕ → ℕ) → Block → Block
header n block old = copy_words n (update old 0 n) 1 block 0

pub header-zero : (n : ℕ) (block : ℕ → ℕ) (old : Block) → header n block old 0 ≡ n
header-zero n block old =
    copy_words_below n (update old 0 n) 1 block 0 0 (omega arith) ∙ update_self old 0 n

pub header-suc :
    (n : ℕ) (block : ℕ → ℕ) (old : Block) (i : ℕ) → i < n → header n block old (suc i) ≡ block i
header-suc n block old i h =
    let e : suc i ≡ 1 + i = omega arith in
    let f : 0 + i ≡ i = omega arith in
    ap (header n block old) e ∙ copy_words_in n (update old 0 n) 1 block 0 i h ∙ ap block f

-- `read_head` on a header reads back its block numbers.
pub read_names :
    (n : ℕ) (old : ℕ → ℕ) (lh : Block) (i : ℕ) → i < n → copy_words n old 0 lh 1 i ≡ lh (suc i)
read_names n old lh i h =
    let e : i ≡ 0 + i = omega arith in
    let f : 1 + i ≡ suc i = omega arith in
    ap (copy_words n old 0 lh 1) e ∙ copy_words_in n old 0 lh 1 i h ∙ ap lh f

bread-bwrite_self : (s : Log) (b : ℕ) (x : Block) → bread (bwrite s b x) b ≡ x
unfolding bread bwrite
bread-bwrite_self s b x = ground arith

-- What `write_head` stores is what `read_head` loads: the count and every block number in use.
read_head-write_head :
    (s : Log) (i : ℕ)
    → i < s.n
    → ((read_head (write_head s)).n ≡ s.n) × ((read_head (write_head s)).block i ≡ s.block i)
unfolding read_head write_head
read_head-write_head s i h =
    let old = bread s s.start in
    let hd = header s.n s.block old in
    let t = bwrite s s.start hd in
    let same : bread t s.start ≡ hd = bread-bwrite_self s s.start hd in
    let count : bread t s.start 0 ≡ s.n =
      ap (λ (f : Block). f 0) same ∙ header-zero s.n s.block old in
    let name : copy_words (bread t s.start 0) t.block 0 (bread t s.start) 1 i ≡ s.block i =
      read_names (bread t s.start 0) t.block (bread t s.start) i (rw count h)
      ∙ ap (λ (f : Block). f (suc i)) same
      ∙ header-suc s.n s.block old i h in
    unfold bwrite in (count, name)

-- ===== src/Xv6/Bio/Tests.antt =====
-- The buffer cache theorems at a cache of two buffers.
use os_projects.Base.{ℕ, zero, suc, ◌+◌, ◌<◌, ◌≡◌, ◌≢◌, refl, [], ◌∷◌, true, false, arith}
use os_projects.Xv6.Bio.{Buf, Bcache, bget, bread}
use os_projects.Xv6.Bio.Get.{IsCache, contains, Gets, bget_lem}
use os_projects.Xv6.Bio.Coherent.{IsCoherent, Reads, bread_lem}

abbrev clean : ℕ → ℕ → Buf
clean blockno refcnt = record {
  valid = true;
  dirty = false;
  dev = 1;
  blockno = blockno;
  lock = record { locked = false; pid = 0 };
  refcnt = refcnt;
  block_data = blockno ∷ [];
}

-- Buffer 0 has block 3 and is referenced; the others have each its own block.
abbrev two : Bcache
two = record {
  buf = λ i. elim i [ zero ↦ clean 3 1 | suc k ↦ clean (k + 4) 0 ];
  order = 1 ∷ 0 ∷ [];
  disk = λ b. b ∷ [];
  disksize = 1000;
}

two-IsCache : IsCache 2 two
unfolding contains
two-IsCache = record { covers = covers; within = within; unique = unique }
  where
    covers : (i : ℕ) → i < 2 → contains i two.order ≡ true
    covers i l = ground arith

    within : (i : ℕ) → contains i two.order ≡ true → i < 2
    within i h = ground arith

    unique :
        (i j : ℕ)
        → i < 2
        → j < 2
        → (two.buf i).dev ≢ 0
        → (two.buf i).dev ≡ (two.buf j).dev
        → (two.buf i).blockno ≡ (two.buf j).blockno
        → i ≡ j
    unique zero zero li lj nz d o = refl
    unique zero (suc j) li lj nz d o = absurd (omega arith)
    unique (suc i) zero li lj nz d o = absurd (omega arith)
    unique (suc i) (suc j) li lj nz d o = omega arith

two-IsCoherent : IsCoherent two
two-IsCoherent zero = ((λ d. refl), (λ v d l. refl))
two-IsCoherent (suc i) = ((λ d. refl), (λ v d l. refl))

bget_lem_example : Gets 2 1 9 two (bget 1 9 two)
bget_lem_example = bget_lem 2 1 9 two two-IsCache

bread_lem_example : Reads 2 7 9 two (bread 7 1 9 two)
bread_lem_example = bread_lem 2 7 9 two two-IsCache two-IsCoherent (omega arith)

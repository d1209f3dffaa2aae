-- ===== src/Xv6/Bio/Coherent.antt =====
-- The data that `bread` and `bwrite` leave in the buffers and on the disk.
use os_projects.Base.{
  ℕ, ◌+◌, ◌%◌, ◌^◌, ◌<◌, ◌≡◌, ◌⊎◌, inl, inr, refl, ap, sym, ◌∙◌, subst, List, true, false, ◌==◌,
  leb, Option, none, some, update, update_ne, update_self, arith, Bool-cases, ℕ_discrete,
}
use os_projects.Xv6.Spinlock.{SleepLock, acquiresleep, holdingsleep}
use os_projects.Xv6.Bio.{
  Buf, Bcache, caches, find_cached, find_unused_buf, recycled, bget, iderw, Read, sleeps, panics,
  got, fill, bread_locked, bread,
}
use os_projects.Xv6.Bio.Get.{IsCache, Gets, bget_lem}

abbrev pub Good : (ℕ → List ℕ) → Buf → Type 0
Good disk b =
    (b.dirty ≡ true → b.valid ≡ true)
    × (b.valid ≡ true → b.dirty ≡ false → b.lock.locked ≡ false → b.block_data ≡ disk b.blockno)

-- A dirty buffer is valid, and one that is valid, clean and not locked has the contents of its block.
abbrev pub IsCoherent : Bcache → Type 0
IsCoherent c = (i : ℕ) → Good c.disk (c.buf i)

update-Good :
    (disk : ℕ → List ℕ) (f : ℕ → Buf) (i : ℕ) (b : Buf)
    → ((j : ℕ) → Good disk (f j))
    → Good disk b
    → (j : ℕ) → Good disk (update f i b j)
update-Good disk f i b h g j = elim (ℕ_discrete i j) [
  | yes e ↦
      subst (λ m. Good disk (update f i b m)) e (subst (Good disk) (sym (update_self f i b)) g)
  | no ne ↦ subst (Good disk) (sym (update_ne f i j b ne)) (h j)
]

abbrev pub CoherentGet : Bcache → Option (ℕ × Bcache) → Type 0
CoherentGet c none = Unit
CoherentGet c (some (i, d)) = IsCoherent d × (d.disk ≡ c.disk) × (d.disksize ≡ c.disksize)

bget-CoherentGet :
    (dev blockno : ℕ) (c : Bcache) → IsCoherent c → CoherentGet c (bget dev blockno c)
unfolding bget recycled
bget-CoherentGet dev blockno c h = gets_found (find_cached dev blockno c.buf c.order)
  where
    fresh_Good : (i : ℕ) → Good c.disk (recycled dev blockno (c.buf i))
    fresh_Good i = ((λ v. absurd (ground arith)), (λ v. absurd (ground arith)))

    gets_unused :
        (r : Option ℕ)
        → CoherentGet c (elim r [
          | some i ↦ some (i, record c { buf = update c.buf i (recycled dev blockno (c.buf i)) })
          | none ↦ none
        ])
    gets_unused none = tt
    gets_unused (some i) =
        (update-Good c.disk c.buf i (recycled dev blockno (c.buf i)) h (fresh_Good i), refl, refl)

    gets_found :
        (r : Option ℕ)
        → CoherentGet c (elim r [
          | some i ↦ some (
            i,
            record c {
              buf = update c.buf i (record (c.buf i) { refcnt = ((c.buf i).refcnt + 1) % 2 ^ 32 });
            },
          )
          | none ↦ elim (find_unused_buf c.buf c.order) [
            | some i ↦ some (i, record c { buf = update c.buf i (recycled dev blockno (c.buf i)) })
            | none ↦ none
          ]
        ])
    gets_found none = gets_unused (find_unused_buf c.buf c.order)
    gets_found (some i) = (
      update-Good c.disk c.buf i (record (c.buf i) { refcnt = ((c.buf i).refcnt + 1) % 2 ^ 32 }) h
          (h i),
      refl,
      refl,
    )

-- The buffer of a block of the disk, locked by a process, with the contents on the disk or dirty.
abbrev pub Holds : (ℕ → List ℕ) → ℕ → ℕ → Buf → Type 0
Holds disk pid blockno b =
    (caches 1 blockno b ≡ true)
    × (holdingsleep pid b.lock ≡ true)
    × ((b.dirty ≡ true) ⊎ (b.block_data ≡ disk blockno))

-- What `bread` of a block ends in, from a buffer cache.
abbrev pub Reads : ℕ → ℕ → ℕ → Bcache → Read → Type 0
Reads n pid blockno c (got i d) =
    (i < n) × Holds c.disk pid blockno (d.buf i) × (d.disk ≡ c.disk) × IsCoherent d
Reads n pid blockno c (sleeps i d) =
    (i < n)
    × (caches 1 blockno (d.buf i) ≡ true)
    × ((d.buf i).lock.locked ≡ true)
    × (d.disk ≡ c.disk)
    × IsCoherent d
Reads n pid blockno c panics = Gets n 1 blockno c none

fill-valid : (pid i : ℕ) (c : Bcache) → (c.buf i).valid ≡ true → fill pid i c ≡ got i c
unfolding fill
fill-valid pid i c v = rw v refl

abbrev loaded : ℕ → Bcache → Buf
loaded i c = record (c.buf i) { block_data = c.disk (c.buf i).blockno; valid = true }

fill-invalid :
    (pid i : ℕ) (c : Bcache)
    → (c.buf i).valid ≡ false
    → (c.buf i).dirty ≡ false
    → holdingsleep pid (c.buf i).lock ≡ true
    → ((c.buf i).dev == 1) ≡ true
    → leb c.disksize (c.buf i).blockno ≡ false
    → fill pid i c ≡ got i (record c { buf = update c.buf i (loaded i c) })
unfolding fill iderw
fill-invalid pid i c v d held e inside = rw (v, d, held, e, inside) refl

fill_lem :
    (n pid blockno i : ℕ) (c e : Bcache)
    → i < n
    → blockno < c.disksize
    → caches 1 blockno (c.buf i) ≡ true
    → holdingsleep pid (c.buf i).lock ≡ true
    → ((c.buf i).dirty ≡ true → (c.buf i).valid ≡ true)
    → ((c.buf i).valid ≡ true
        → (c.buf i).dirty ≡ false
        → (c.buf i).block_data ≡ c.disk (c.buf i).blockno)
    → IsCoherent c
    → c.disk ≡ e.disk
    → Reads n pid blockno e (fill pid i c)
fill_lem n pid blockno i c e l inside has held dv good h same = elim (Bool-cases (c.buf i).valid) [
  | inl v ↦
      subst (Reads n pid blockno e) (sym (fill-valid pid i c v))
        (l, (has, held, contents v), same, h)
  | inr v ↦
      let clean : (c.buf i).dirty ≡ false = ground arith in
      let b' = loaded i c in
      let data_same : c.disk (c.buf i).blockno ≡ e.disk blockno =
        ap c.disk at ∙ ap (λ f. f blockno) same in
      subst (Reads n pid blockno e)
        (sym (fill-invalid pid i c v clean held (ground arith) (ground arith)))
        (
          l,
          subst (Holds e.disk pid blockno) (sym (update_self c.buf i b'))
              (has, held, inr data_same),
          same,
          update-Good c.disk c.buf i b' h ((λ d. refl), (λ x y z. refl)),
        )
]
  where
    at : (c.buf i).blockno ≡ blockno
    at = ground arith

    contents :
        (c.buf i).valid ≡ true → ((c.buf i).dirty ≡ true) ⊎ ((c.buf i).block_data ≡ e.disk blockno)
    contents v = elim (Bool-cases (c.buf i).dirty) [
      | inl d ↦ inl d
      | inr d ↦ inr (good v d ∙ ap c.disk at ∙ ap (λ f. f blockno) same)
    ]

acquiresleep-free :
    (pid : ℕ) (l : SleepLock)
    → l.locked ≡ false
    → acquiresleep pid l ≡ some (record { locked = true; pid = pid })
unfolding acquiresleep
acquiresleep-free pid l f = rw f refl

acquiresleep-taken : (pid : ℕ) (l : SleepLock) → l.locked ≡ true → acquiresleep pid l ≡ none
unfolding acquiresleep
acquiresleep-taken pid l t = rw t refl

abbrev locked_by : ℕ → Buf → Buf
locked_by pid b = record b { lock = record { locked = true; pid = pid } }

bread_locked-free :
    (pid i : ℕ) (d : Bcache)
    → (d.buf i).lock.locked ≡ false
    → bread_locked pid i d
      ≡ fill pid i (record d { buf = update d.buf i (locked_by pid (d.buf i)) })
unfolding bread_locked
bread_locked-free pid i d f =
    ap
      (λ o. elim o [
        | none ↦ sleeps i d
        | some l ↦ fill pid i (record d { buf = update d.buf i (record (d.buf i) { lock = l }) })
      ])
      (acquiresleep-free pid (d.buf i).lock f)

bread_locked-taken :
    (pid i : ℕ) (d : Bcache) → (d.buf i).lock.locked ≡ true → bread_locked pid i d ≡ sleeps i d
unfolding bread_locked
bread_locked-taken pid i d t =
    ap
      (λ o. elim o [
        | none ↦ sleeps i d
        | some l ↦ fill pid i (record d { buf = update d.buf i (record (d.buf i) { lock = l }) })
      ])
      (acquiresleep-taken pid (d.buf i).lock t)

-- From a coherent buffer cache, `bread` of a block of the disk returns the buffer of the block, locked
-- by the process, with the contents that the block has on the disk unless the buffer is dirty; it
-- sleeps if another process has the lock, and panics only if no buffer has the block and every one is
-- referenced or dirty. It leaves the disk as it is, and the cache coherent.
pub bread_lem :
    (n pid blockno : ℕ) (c : Bcache)
    → IsCache n c
    → IsCoherent c
    → blockno < c.disksize
    → Reads n pid blockno c (bread pid 1 blockno c)
unfolding bread holdingsleep
bread_lem n pid blockno c cache h inside =
    after (bget 1 blockno c) (bget_lem n 1 blockno c cache) (bget-CoherentGet 1 blockno c h)
  where
    after :
        (r : Option (ℕ × Bcache))
        → Gets n 1 blockno c r
        → CoherentGet c r
        → Reads n pid blockno c (elim r [ none ↦ panics | some (i, d) ↦ bread_locked pid i d ])
    after none g k = g
    after (some (i, d)) (l, has, was, same, cache') (h', ed, es) =
        elim (Bool-cases (d.buf i).lock.locked) [
          | inl t ↦
              subst (Reads n pid blockno c) (sym (bread_locked-taken pid i d t)) (l, has, t, ed, h')
          | inr f ↦
              let b' = locked_by pid (d.buf i) in
              let self = sym (update_self d.buf i b') in
              subst (Reads n pid blockno c) (sym (bread_locked-free pid i d f)) (
                fill_lem n pid blockno i (record d { buf = update d.buf i b' }) c l (omega arith)
                  (subst (λ b. caches 1 blockno b ≡ true) self has)
                  (subst (λ b. holdingsleep pid b.lock ≡ true) self (ground arith))
                  (subst (λ b. b.dirty ≡ true → b.valid ≡ true) self (h' i).0)
                  (subst (λ b. b.valid ≡ true → b.dirty ≡ false → b.block_data ≡ d.disk b.blockno)
                    self (λ v x. (h' i).1 v x f))
                  (update-Good d.disk d.buf i b' h' ((h' i).0, (λ v x y. absurd (ground arith))))
                  ed)
        ]

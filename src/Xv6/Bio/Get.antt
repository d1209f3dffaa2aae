-- ===== src/Xv6/Bio/Get.antt =====
-- What `bget` does to the buffer cache.
use os_projects.Base.{
  ℕ, ◌+◌, ◌%◌, ◌^◌, ◌<◌, ◌≡◌, ◌≢◌, ◌⊎◌, inl, inr, refl, ap, sym, ◌∙◌, subst, List, [], ◌∷◌, Bool,
  true, false, ◌==◌, ◌||◌, if◌then◌else◌, Option, none, some, update, update_ne, update_self, arith,
  Bool-cases, ℕ_discrete,
}
use os_projects.Xv6.Bio.{
  Buf, Bcache, caches, can_recycle, find_cached, find_unused_buf, recycled, bget,
}

unfoldable pub contains : ℕ → List ℕ → Bool
contains i [] = false
contains i (j ∷ js) = (i == j) || contains i js

-- The list holds the first `n` buffers and no other, and two of them never have the same block of a
-- device other than 0, which is that of a buffer that was never used.
pub record IsCache (n : ℕ) (c : Bcache) : Type 0 where
  pub covers : (i : ℕ) → i < n → contains i c.order ≡ true
  pub within : (i : ℕ) → contains i c.order ≡ true → i < n
  pub unique :
      (i j : ℕ)
      → i < n
      → j < n
      → (c.buf i).dev ≢ 0
      → (c.buf i).dev ≡ (c.buf j).dev
      → (c.buf i).blockno ≡ (c.buf j).blockno
      → i ≡ j

-- What a search of a list for an index with a property finds.
abbrev pub Searched : (ℕ → Bool) → List ℕ → Option ℕ → Type 0
Searched p is none = (j : ℕ) → contains j is ≡ true → p j ≡ false
Searched p is (some i) = (contains i is ≡ true) × (p i ≡ true)

contains_self : (i : ℕ) (is : List ℕ) → contains i (i ∷ is) ≡ true
unfolding contains
contains_self i is = ground arith

contains_rest : (i j : ℕ) (is : List ℕ) → contains i is ≡ true → contains i (j ∷ is) ≡ true
unfolding contains
contains_rest i j is h = ground arith

Searched-skip :
    (p : ℕ → Bool) (i : ℕ) (is : List ℕ) (r : Option ℕ)
    → p i ≡ false
    → Searched p is r
    → Searched p (i ∷ is) r
unfolding contains
Searched-skip p i is (some j) f (m, t) = (contains_rest j i is m, t)
Searched-skip p i is none f h = at
  where
    at : (j : ℕ) → contains j (i ∷ is) ≡ true → p j ≡ false
    at j m = elim (ℕ_discrete i j) [
      | yes e ↦ subst (λ k. p k ≡ false) e f
      | no ne ↦ h j (ground arith)
    ]

Searched-last :
    (p : ℕ → Bool) (i : ℕ) (is : List ℕ) (r : Option ℕ)
    → Searched p is r
    → Searched p (i ∷ is) (elim r [ some j ↦ some j | none ↦ if p i then some i else none ])
Searched-last p i is (some j) (m, t) = (contains_rest j i is m, t)
Searched-last p i is none h = elim (Bool-cases (p i)) [
  | inl t ↦ rw t (contains_self i is, t)
  | inr f ↦ rw f (Searched-skip p i is none f h)
]

find_cached_lem :
    (dev blockno : ℕ) (buf : ℕ → Buf) (is : List ℕ)
    → Searched (λ i. caches dev blockno (buf i)) is (find_cached dev blockno buf is)
unfolding find_cached contains
find_cached_lem dev blockno buf [] = λ j h. ground arith
find_cached_lem dev blockno buf (i ∷ is) = elim (Bool-cases (caches dev blockno (buf i))) [
  | inl t ↦ rw t (contains_self i is, t)
  | inr f ↦ rw f (
      Searched-skip (λ i. caches dev blockno (buf i)) i is (find_cached dev blockno buf is) f
        (find_cached_lem dev blockno buf is))
]

find_unused_buf_lem :
    (buf : ℕ → Buf) (is : List ℕ) → Searched (λ i. can_recycle (buf i)) is (find_unused_buf buf is)
unfolding find_unused_buf contains
find_unused_buf_lem buf [] = λ j h. ground arith
find_unused_buf_lem buf (i ∷ is) =
    Searched-last (λ i. can_recycle (buf i)) i is (find_unused_buf buf is)
      (find_unused_buf_lem buf is)

-- What `bget` ends in.
abbrev pub Gets : ℕ → ℕ → ℕ → Bcache → Option (ℕ × Bcache) → Type 0
Gets n dev blockno c none =
    (i : ℕ) → i < n → (caches dev blockno (c.buf i) ≡ false) × (can_recycle (c.buf i) ≡ false)
Gets n dev blockno c (some (i, d)) =
    (i < n)
    × (caches dev blockno (d.buf i) ≡ true)
    × ((caches dev blockno (c.buf i) ≡ true) ⊎ (can_recycle (c.buf i) ≡ true))
    × ((j : ℕ) → i ≢ j → d.buf j ≡ c.buf j)
    × IsCache n d

-- A cached block stays in its buffer.
pub same_block :
    (f : ℕ → Buf) (i : ℕ) (b : Buf) (k : ℕ)
    → b.dev ≡ (f i).dev
    → b.blockno ≡ (f i).blockno
    → ((update f i b k).dev ≡ (f k).dev) × ((update f i b k).blockno ≡ (f k).blockno)
same_block f i b k e1 e2 = elim (ℕ_discrete i k) [
  | yes e ↦
      subst (λ j. ((update f i b j).dev ≡ (f j).dev) × ((update f i b j).blockno ≡ (f j).blockno)) e
        (rw (update_self f i b) (e1, e2))
  | no ne ↦ rw (update_ne f i k b ne) (refl, refl)
]

IsCache-same :
    (n : ℕ) (c : Bcache) (i : ℕ) (b : Buf)
    → IsCache n c
    → b.dev ≡ (c.buf i).dev
    → b.blockno ≡ (c.buf i).blockno
    → IsCache n (record c { buf = update c.buf i b })
IsCache-same n c i b h e1 e2 = record { covers = h.covers; within = h.within; unique = unique }
  where
    unique :
        (j k : ℕ)
        → j < n
        → k < n
        → (update c.buf i b j).dev ≢ 0
        → (update c.buf i b j).dev ≡ (update c.buf i b k).dev
        → (update c.buf i b j).blockno ≡ (update c.buf i b k).blockno
        → j ≡ k
    unique j k lj lk nz d o =
        let (dj, oj) = same_block c.buf i b j e1 e2 in
        let (dk, ok) = same_block c.buf i b k e1 e2 in
        h.unique j k lj lk (λ z. nz (dj ∙ z)) (sym dj ∙ d ∙ dk) (sym oj ∙ o ∙ ok)

IsCache-recycled :
    (n : ℕ) (c : Bcache) (i dev blockno : ℕ)
    → IsCache n c
    → ((j : ℕ) → j < n → caches dev blockno (c.buf j) ≡ false)
    → IsCache n (record c { buf = update c.buf i (recycled dev blockno (c.buf i)) })
unfolding recycled
IsCache-recycled n c i dev blockno h free = record {
  covers = h.covers;
  within = h.within;
  unique = unique;
}
  where
    b : Buf
    b = recycled dev blockno (c.buf i)

    no_other : (k : ℕ) → k < n → dev ≡ (c.buf k).dev → blockno ≡ (c.buf k).blockno → (k ≡ i)
    no_other k lk d o = let f = free k lk in ground arith

    fresh_dev : (m : ℕ) → i ≡ m → (update c.buf i b m).dev ≡ dev
    fresh_dev m e =
        subst (λ m. (update c.buf i b m).dev ≡ dev) e (ap (λ x. x.dev) (update_self c.buf i b))

    fresh_block : (m : ℕ) → i ≡ m → (update c.buf i b m).blockno ≡ blockno
    fresh_block m e =
        subst (λ m. (update c.buf i b m).blockno ≡ blockno) e
          (ap (λ x. x.blockno) (update_self c.buf i b))

    old_dev : (m : ℕ) → i ≢ m → (update c.buf i b m).dev ≡ (c.buf m).dev
    old_dev m ne = ap (λ x. x.dev) (update_ne c.buf i m b ne)

    old_block : (m : ℕ) → i ≢ m → (update c.buf i b m).blockno ≡ (c.buf m).blockno
    old_block m ne = ap (λ x. x.blockno) (update_ne c.buf i m b ne)

    unique :
        (j k : ℕ)
        → j < n
        → k < n
        → (update c.buf i b j).dev ≢ 0
        → (update c.buf i b j).dev ≡ (update c.buf i b k).dev
        → (update c.buf i b j).blockno ≡ (update c.buf i b k).blockno
        → j ≡ k
    unique j k lj lk nz d o = elim (ℕ_discrete i j) [
      | yes ej ↦ elim (ℕ_discrete i k) [
        | yes ek ↦ sym ej ∙ ek
        | no nk ↦ absurd (
            nk (
              sym (
                no_other k lk (sym (fresh_dev j ej) ∙ d ∙ old_dev k nk)
                  (sym (fresh_block j ej) ∙ o ∙ old_block k nk))))
      ]
      | no nj ↦ elim (ℕ_discrete i k) [
        | yes ek ↦ absurd (
            nj (
              sym (
                no_other j lj (sym (sym (old_dev j nj) ∙ d ∙ fresh_dev k ek))
                  (sym (sym (old_block j nj) ∙ o ∙ fresh_block k ek)))))
        | no nk ↦
            h.unique j k lj lk (λ z. nz (old_dev j nj ∙ z)) (sym (old_dev j nj) ∙ d ∙ old_dev k nk)
              (sym (old_block j nj) ∙ o ∙ old_block k nk)
      ]
    ]

recycled-caches :
    (n : ℕ) (c : Bcache) (i dev blockno : ℕ)
    → caches dev blockno (update c.buf i (recycled dev blockno (c.buf i)) i) ≡ true
unfolding recycled
recycled-caches n c i dev blockno =
    rw (update_self c.buf i (recycled dev blockno (c.buf i))) (ground arith)

-- `bget` finds the buffer of the block, or takes one that is neither referenced nor dirty; it changes
-- no other buffer, and leaves a buffer cache in which no block of the device is twice. It panics only
-- if no buffer has the block and every one is referenced or dirty.
pub bget_lem :
    (n dev blockno : ℕ) (c : Bcache) → IsCache n c → Gets n dev blockno c (bget dev blockno c)
unfolding bget
bget_lem n dev blockno c h =
    gets_found (find_cached dev blockno c.buf c.order) (find_cached_lem dev blockno c.buf c.order)
  where
    gets_unused :
        (r : Option ℕ)
        → Searched (λ i. can_recycle (c.buf i)) c.order r
        → ((j : ℕ) → contains j c.order ≡ true → caches dev blockno (c.buf j) ≡ false)
        → Gets n dev blockno c (elim r [
          | some i ↦ some (i, record c { buf = update c.buf i (recycled dev blockno (c.buf i)) })
          | none ↦ none
        ])
    gets_unused none s free = λ i l. (free i (h.covers i l), s i (h.covers i l))
    gets_unused (some i) (m, t) free = (
      h.within i m,
      recycled-caches n c i dev blockno,
      inr t,
      λ j ne. update_ne c.buf i j (recycled dev blockno (c.buf i)) ne,
      IsCache-recycled n c i dev blockno h (λ j l. free j (h.covers j l)),
    )

    gets_found :
        (r : Option ℕ)
        → Searched (λ i. caches dev blockno (c.buf i)) c.order r
        → Gets n dev blockno c (elim r [
          | some i ↦ some (
            i,
            record c {
              buf = update c.buf i (record (c.buf i) { refcnt = ((c.buf i).refcnt + 1) % 2 ^ 32 });
            },
          )
          | none ↦ elim (find_unused_buf c.buf c.order) [
            | some i ↦ some (i, record c { buf = update c.buf i (recycled dev blockno (c.buf i)) })
            | none ↦ none
          ]
        ])
    gets_found none s =
        gets_unused (find_unused_buf c.buf c.order) (find_unused_buf_lem c.buf c.order) s
    gets_found (some i) (m, t) =
        let b = record (c.buf i) { refcnt = ((c.buf i).refcnt + 1) % 2 ^ 32 } in
        (
          h.within i m,
          rw (update_self c.buf i b) t,
          inl t,
          λ j ne. update_ne c.buf i j b ne,
          IsCache-same n c i b h refl refl,
        )

-- ===== src/Xv6/Fs/Inodes/Table.antt =====
-- The entries of the table of inodes: `iget`.
use os_projects.Base.{
  ℕ, zero, suc, ◌+◌, ◌<◌, ◌≡◌, ◌≢◌, ◌⊎◌, inl, inr, refl, ap, sym, ◌∙◌, subst, Bool, true, false,
  ◌==◌, ◌&&◌, ltb, if◌then◌else◌, Option, none, some, update, update_ne, update_self, arith,
  Bool-cases, ℕ_discrete,
}
use os_projects.Xv6.Fs.{Fs, Inode, Res, done, sleeps, panics, ninode}
use os_projects.Xv6.Fs.Inodes.{put_inode, Slot, cached, unused, find_inode, take_slot, iget}

-- An entry in use that has the inode.
abbrev pub holds : ℕ → ℕ → Inode → Bool
holds dev inum ip = ltb 0 ip.ref && ((ip.dev == dev) && (ip.inum == inum))

-- What is known of the first empty slot that the scan of the entries up to `i` remembers.
abbrev Empty : ℕ → (ℕ → Inode) → Option ℕ → Type 0
Empty i t none = (j : ℕ) → j < i → (t j).ref ≢ 0
Empty i t (some j) = (j < i) × ((t j).ref ≡ 0)

abbrev Found : ℕ → ℕ → ℕ → (ℕ → Inode) → Slot → Type 0
Found n dev inum t (cached i) = (i < n) × (holds dev inum (t i) ≡ true)
Found n dev inum t (unused e) = ((j : ℕ) → j < n → holds dev inum (t j) ≡ false) × Empty n t e

-- `empty` after the entry `i`.
abbrev remember : ℕ → (ℕ → Inode) → Option ℕ → Option ℕ
remember i t empty = elim empty [ some j ↦ some j | none ↦ if (t i).ref == 0 then some i else none ]

remember-Empty :
    (i : ℕ) (t : ℕ → Inode) (e : Option ℕ) → Empty i t e → Empty (i + 1) t (remember i t e)
remember-Empty i t (some j) (a, b) = (omega arith, b)
remember-Empty i t none h = elim (Bool-cases ((t i).ref == 0)) [
  | inl z ↦ rw z (omega arith, ground arith)
  | inr nz ↦ rw nz (λ j l. elim (ℕ_discrete i j) [
    | yes e ↦ subst (λ k. (t k).ref ≢ 0) e (λ z. ground arith)
    | no ne ↦ h j (omega arith)
  ])
]

find_inode_lem :
    (k i n : ℕ) (e : Option ℕ) (dev inum : ℕ) (t : ℕ → Inode)
    → i + k ≡ n
    → ((j : ℕ) → j < i → holds dev inum (t j) ≡ false)
    → Empty i t e
    → Found n dev inum t (find_inode k i e dev inum t)
unfolding find_inode
find_inode_lem zero i n e dev inum t s before h =
    let at : i ≡ n = omega arith in (λ j l. before j (omega arith), subst (λ m. Empty m t e) at h)
find_inode_lem (suc k) i n e dev inum t s before h = elim (Bool-cases (holds dev inum (t i))) [
  | inl hit ↦ rw hit (omega arith, hit)
  | inr miss ↦ rw miss (
      find_inode_lem k (i + 1) n (remember i t e) dev inum t (omega arith)
        (λ j l. elim (ℕ_discrete i j) [
          | yes p ↦ subst (λ m. holds dev inum (t m) ≡ false) p miss
          | no ne ↦ before j (omega arith)
        ])
        (remember-Empty i t e h))
]

-- No two entries in use have the same inode.
abbrev pub IsTable : Fs → Type 0
IsTable f =
    (i j : ℕ)
    → i < ninode
    → j < ninode
    → 0 < (f.icache i).ref
    → holds (f.icache i).dev (f.icache i).inum (f.icache j) ≡ true
    → i ≡ j

-- What `iget` ends in.
abbrev pub Gets : ℕ → ℕ → Fs → Res (ℕ × Fs) → Type 0
Gets dev inum f (done (i, g)) =
    (i < ninode)
    × (holds dev inum (g.icache i) ≡ true)
    × ((holds dev inum (f.icache i) ≡ true) × ((g.icache i).ref ≡ (f.icache i).ref + 1)
        ⊎ ((f.icache i).ref ≡ 0) × ((g.icache i).ref ≡ 1) × ((g.icache i).valid ≡ false))
    × ((j : ℕ) → i ≢ j → g.icache j ≡ f.icache j)
    × IsTable g
Gets dev inum f sleeps = ⊥
Gets dev inum f panics =
    (j : ℕ) → j < ninode → ((f.icache j).ref ≢ 0) × (holds dev inum (f.icache j) ≡ false)

IsTable-put :
    (i : ℕ) (ip : Inode) (f : Fs)
    → IsTable f
    → ((j : ℕ) → j < ninode → i ≢ j → holds ip.dev ip.inum (f.icache j) ≡ false)
    → IsTable (put_inode i ip f)
IsTable-put i ip f table alone j k lj lk used h = elim (ℕ_discrete i j) [
  | yes ej ↦ elim (ℕ_discrete i k) [
    | yes ek ↦ sym ej ∙ ek
    | no nk ↦
        let x = fresh j ej in
        let y = update_ne f.icache i k ip nk in
        let a = alone k lk nk in
        let t : holds ip.dev ip.inum (f.icache k) ≡ true =
          subst (λ (u : Inode). holds u.dev u.inum (f.icache k) ≡ true) x
            (subst (λ u. holds (at j).dev (at j).inum u ≡ true) y h) in
        absurd (ground arith)
  ]
  | no nj ↦ elim (ℕ_discrete i k) [
    | yes ek ↦
        let x = update_ne f.icache i j ip nj in
        let a = alone j lj nj in
        let t : holds (f.icache j).dev (f.icache j).inum ip ≡ true =
          subst (λ (u : Inode). holds u.dev u.inum ip ≡ true) x
            (subst (λ u. holds (at j).dev (at j).inum u ≡ true) (fresh k ek) h) in
        let pos : 0 < (f.icache j).ref = subst (λ (u : Inode). 0 < u.ref) x used in
        absurd (ground arith)
    | no nk ↦
        let x = update_ne f.icache i j ip nj in
        let y = update_ne f.icache i k ip nk in
        table j k lj lk (subst (λ (u : Inode). 0 < u.ref) x used) (
          subst (λ (u : Inode). holds u.dev u.inum (f.icache k) ≡ true) x
            (subst (λ u. holds (at j).dev (at j).inum u ≡ true) y h))
  ]
]
  where
    at : ℕ → Inode
    at m = update f.icache i ip m

    fresh : (m : ℕ) → i ≡ m → at m ≡ ip
    fresh m e = subst (λ m. update f.icache i ip m ≡ ip) e (update_self f.icache i ip)

take_slot-Gets :
    (dev inum : ℕ) (f : Fs) (s : Slot)
    → IsTable f
    → Found ninode dev inum f.icache s
    → Gets dev inum f (take_slot dev inum s f)
unfolding take_slot
take_slot-Gets dev inum f (cached i) table (l, h) =
    let ip = record (f.icache i) { ref = (f.icache i).ref + 1 } in
    let self = update_self f.icache i ip in
    let alone : (j : ℕ) → j < ninode → i ≢ j → holds ip.dev ip.inum (f.icache j) ≡ false =
      λ j lj ne. elim (Bool-cases (holds ip.dev ip.inum (f.icache j))) [
        | inl t ↦ absurd (ne (table i j l lj (ground arith) t))
        | inr z ↦ z
      ] in
    (
      l,
      subst (λ u. holds dev inum u ≡ true) (sym self) (ground arith),
      inl (h, ap (λ (u : Inode). u.ref) self),
      λ j ne. update_ne f.icache i j ip ne,
      IsTable-put i ip f table alone,
    )
take_slot-Gets dev inum f (unused none) table (miss, h) = λ j l. (h j l, miss j l)
take_slot-Gets dev inum f (unused (some i)) table (miss, (l, z)) =
    let ip = record (f.icache i) { dev = dev; inum = inum; ref = 1; valid = false } in
    let self = update_self f.icache i ip in
    (
      l,
      subst (λ u. holds dev inum u ≡ true) (sym self) (ground arith),
      inr (z, ap (λ (u : Inode). u.ref) self, ap (λ (u : Inode). u.valid) self),
      λ j ne. update_ne f.icache i j ip ne,
      IsTable-put i ip f table (λ j lj ne. miss j lj),
    )

-- `iget` gives a reference to the entry in use that has the inode, or else makes an entry that no one
-- references the inode's, with one reference and no contents; it changes no other entry, and no two
-- entries in use have the same inode after it, if none had before. It panics only if every entry is in
-- use and none has the inode.
pub iget_lem : (dev inum : ℕ) (f : Fs) → IsTable f → Gets dev inum f (iget dev inum f)
unfolding iget
iget_lem dev inum f table =
    take_slot-Gets dev inum f (find_inode ninode 0 none dev inum f.icache) table (
      find_inode_lem ninode 0 ninode none dev inum f.icache refl (λ j l. absurd (omega arith))
        (λ j l. absurd (omega arith)))

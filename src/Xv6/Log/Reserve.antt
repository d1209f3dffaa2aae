-- ===== src/Xv6/Log/Reserve.antt =====
-- The room that `begin_op` reserves in the log for operations that each call `log_write` at most
-- `MAXOPBLOCKS` times, in any interleaving.
use os_projects.Base.{
  ℕ, zero, suc, ◌+◌, ◌-◌, ◌%◌, ◌*◌, ◌^◌, ◌≤◌, ◌≡◌, refl, ap, subst, true, none, some, List, [], ◌∷◌,
  ◌++◌, All, length, length-append, arith,
}
use os_projects.Xv6.Log.{
  Log, Block, logsize, maxopblocks, begin_op, end_op, end_op_enter, end_op_leave, log_write,
  find_slot, commit, install_from, install_trans, write_log_from, write_log, write_head, bwrite,
}

-- The log, and for each operation in progress how many calls of `log_write` it may still make.
pub record Ops : Type 0 where
  pub log : Log
  pub left : List ℕ

pub data Step (s : Ops) : Ops → Type 0 where
  begins :
      (l : Log) → begin_op s.log ≡ some l → Step s (record { log = l; left = maxopblocks ∷ s.left })
  writes :
      (xs ys : List ℕ) (k b : ℕ) (x : Block) (l : Log)
      → s.left ≡ xs ++ suc k ∷ ys
      → log_write s.log b x ≡ some l
      → Step s (record { log = l; left = xs ++ k ∷ ys })
  ends :
      (xs ys : List ℕ) (k : ℕ) (l : Log)
      → s.left ≡ xs ++ k ∷ ys
      → end_op s.log ≡ some l
      → Step s (record { log = l; left = xs ++ ys })

pub data Reach (s : Ops) : Ops → Type 0 where
  here : Reach s s
  later : {t u : Ops} → Reach s t → Step t u → Reach s u

abbrev pub sum : List ℕ → ℕ
sum [] = 0
sum (x ∷ xs) = x + sum xs

sum-append : (xs ys : List ℕ) → sum (xs ++ ys) ≡ sum xs + sum ys
sum-append [] ys = omega arith
sum-append (x ∷ xs) ys = omega (arith, sum-append xs ys)

length-swap : (xs ys : List ℕ) (j k : ℕ) → length (xs ++ j ∷ ys) ≡ length (xs ++ k ∷ ys)
length-swap [] ys j k = refl
length-swap (x ∷ xs) ys j k = ap suc (length-swap xs ys j k)

abbrev Small : List ℕ → Type 0
Small = All (λ k. k ≤ maxopblocks)

Small-append : (xs ys : List ℕ) → Small (xs ++ ys) → Small xs × Small ys
Small-append [] ys a = (tt, a)
Small-append (x ∷ xs) ys a = let (p, q) = Small-append xs ys a.1 in ((a.0, p), q)

append-Small : (xs ys : List ℕ) → Small xs → Small ys → Small (xs ++ ys)
append-Small [] ys a b = b
append-Small (x ∷ xs) ys a b = (a.0, append-Small xs ys a.1 b)

sum-le : (xs : List ℕ) → Small xs → sum xs ≤ length xs * maxopblocks
sum-le [] a = omega arith
sum-le (x ∷ xs) a = omega (arith, sum-le xs a.1)

-- The blocks in the log and those still to come fit, the counter counts the operations, and the log
-- area of the disk has `LOGSIZE` blocks at least, the header's among them.
pub record IsReserved (s : Ops) : Type 0 where
  pub fits : s.log.n + sum s.left ≤ logsize
  pub counted : s.log.outstanding ≡ length s.left
  pub each : All (λ k. k ≤ maxopblocks) s.left
  pub few : length s.left ≤ 3
  pub roomy : logsize ≤ s.log.size

begin-IsReserved :
    (s : Ops) (l : Log)
    → IsReserved s
    → begin_op s.log ≡ some l
    → IsReserved (record { log = l; left = maxopblocks ∷ s.left })
unfolding begin_op
begin-IsReserved s l r e = ground (arith, sum-le s.left r.each)

find_slot-le : (k i : ℕ) (block : ℕ → ℕ) (b : ℕ) → find_slot k i block b ≤ i + k
unfolding find_slot
find_slot-le zero i block b = omega arith
find_slot-le (suc k) i block b = ground (arith, find_slot-le k (i + 1) block b)

-- `log_write` adds at most one block to the log.
log_write-n :
    (s : Log) (b : ℕ) (x : Block) (l : Log)
    → log_write s b x ≡ some l
    → (l.n ≤ s.n + 1) × (l.outstanding ≡ s.outstanding) × (l.size ≡ s.size)
unfolding log_write
log_write-n s b x l e = ground arith

write-IsReserved :
    (s : Ops) (xs ys : List ℕ) (k b : ℕ) (x : Block) (l : Log)
    → IsReserved s
    → s.left ≡ xs ++ suc k ∷ ys
    → log_write s.log b x ≡ some l
    → IsReserved (record { log = l; left = xs ++ k ∷ ys })
write-IsReserved s xs ys k b x l r e h =
    let (n_le, same, size_eq) = log_write-n s.log b x l h in
    let len : length s.left ≡ length (xs ++ suc k ∷ ys) = ap length e in
    let total : sum s.left ≡ sum (xs ++ suc k ∷ ys) = ap sum e in
    let (p, q) = Small-append xs (suc k ∷ ys) (subst Small e r.each) in
    record {
      fits = omega (arith, r.fits, sum-append xs (suc k ∷ ys), sum-append xs (k ∷ ys));
      counted = omega (arith, r.counted, length-swap xs ys k (suc k));
      each = append-Small xs (k ∷ ys) p (omega arith, q.1);
      few = omega (arith, r.few, length-swap xs ys k (suc k));
      roomy = omega (arith, r.roomy);
    }

-- What `commit` leaves alone.
abbrev Same : Log → Log → Type 0
Same s r = (r.outstanding ≡ s.outstanding) × (r.size ≡ s.size)

install_from-Same : (k tail : ℕ) (s : Log) → Same s (install_from k tail s)
unfolding install_from bwrite
install_from-Same zero tail s = (refl, refl)
install_from-Same (suc k) tail s = install_from-Same k (tail + 1) (bwrite s _ _)

write_log_from-Same : (k tail : ℕ) (s : Log) → Same s (write_log_from k tail s)
unfolding write_log_from bwrite
write_log_from-Same zero tail s = (refl, refl)
write_log_from-Same (suc k) tail s = write_log_from-Same k (tail + 1) (bwrite s _ _)

-- A commit empties the log in memory.
commit-Same : (s : Log) → Same s (commit s) × ((commit s).n ≡ 0)
unfolding commit install_trans write_log write_head bwrite
commit-Same s =
    let a = write_log_from-Same s.n 0 s in
    let s2 = write_head (write_log_from s.n 0 s) in
    let b = install_from-Same s2.n 0 s2 in ground arith

-- `end_op` lowers the counter by one and never adds a block.
end_op-n :
    (s : Log) (l : Log)
    → end_op s ≡ some l
    → (l.n ≤ s.n) × (l.outstanding ≡ (s.outstanding + 2 ^ 32 - 1) % 2 ^ 32) × (l.size ≡ s.size)
unfolding end_op end_op_enter end_op_leave
end_op-n s l e =
    let last = record s {
      outstanding = (s.outstanding + 2 ^ 32 - 1) % 2 ^ 32;
      committing = true;
    } in
    ground (arith, commit-Same last)

end-IsReserved :
    (s : Ops) (xs ys : List ℕ) (k : ℕ) (l : Log)
    → IsReserved s
    → s.left ≡ xs ++ k ∷ ys
    → end_op s.log ≡ some l
    → IsReserved (record { log = l; left = xs ++ ys })
end-IsReserved s xs ys k l r e h =
    let (n_le, out_eq, size_eq) = end_op-n s.log l h in
    let len : length s.left ≡ length (xs ++ k ∷ ys) = ap length e in
    let total : sum s.left ≡ sum (xs ++ k ∷ ys) = ap sum e in
    let (p, q) = Small-append xs (k ∷ ys) (subst Small e r.each) in
    let long = length-append xs (k ∷ ys) in
    let short = length-append xs ys in
    record {
      fits = omega (arith, r.fits, sum-append xs (k ∷ ys), sum-append xs ys);
      counted = omega (arith, r.counted, r.few);
      each = append-Small xs ys p q.1;
      few = omega (arith, r.few);
      roomy = omega (arith, r.roomy);
    }

Step-IsReserved : {s u : Ops} → Step s u → IsReserved s → IsReserved u
Step-IsReserved {s} (begins l e) r = begin-IsReserved s l r e
Step-IsReserved {s} (writes xs ys k b x l e h) r = write-IsReserved s xs ys k b x l r e h
Step-IsReserved {s} (ends xs ys k l e h) r = end-IsReserved s xs ys k l r e h

Reach-IsReserved : {s u : Ops} → IsReserved s → Reach s u → IsReserved u
Reach-IsReserved r here = r
Reach-IsReserved r (later p st) = Step-IsReserved st (Reach-IsReserved r p)

-- In every state that is reached from a state with room for what is reserved, in a log area of at least
-- `LOGSIZE` blocks, as mkfs makes it, by any interleaving of operations of at most `MAXOPBLOCKS` writes
-- each, a `log_write` by an operation that may still make one panics in one case and in no other: the
-- area has `LOGSIZE` blocks, `LOGSIZE - 1` are in the log, and this is the last write that is reserved.
pub log_write-none :
    (s u : Ops) (xs ys : List ℕ) (k b : ℕ) (x : Block)
    → IsReserved s
    → Reach s u
    → u.left ≡ xs ++ suc k ∷ ys
    → (log_write u.log b x ≡ none
        → (u.log.size ≡ logsize) × (u.log.n ≡ logsize - 1) × (sum u.left ≡ 1))
      × ((u.log.size ≡ logsize) × (u.log.n ≡ logsize - 1) → log_write u.log b x ≡ none)
unfolding log_write
log_write-none s u xs ys k b x r p e =
    let v = Reach-IsReserved r p in
    let len : length u.left ≡ length (xs ++ suc k ∷ ys) = ap length e in
    let total : sum u.left ≡ sum (xs ++ suc k ∷ ys) = ap sum e in
    let pos = sum-append xs (suc k ∷ ys) in
    let held = length-append xs (suc k ∷ ys) in
    (
      λ h. ground (arith, v.fits, v.counted, v.few, v.roomy, pos, held),
      λ h. ground (arith, v.counted, v.few, held),
    )

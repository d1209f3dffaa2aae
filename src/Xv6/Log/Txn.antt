-- ===== src/Xv6/Log/Txn.antt =====
-- A transaction on the disk: its blocks, their new contents, and the disk that it starts from.
use os_projects.Base.{ℕ, suc, ◌+◌, ◌≤◌, ◌<◌, ◌≡◌, ◌≢◌, ◌⊎◌, All}
use os_projects.Xv6.Log.{Log, Disk, Block, logsize}

pub record Txn : Type 0 where
  pub start : ℕ
  pub n : ℕ
  pub ids : ℕ → ℕ
  pub content : ℕ → Block
  pub base : Disk

-- `b` is not one of the blocks of the log.
abbrev pub Outside : ℕ → ℕ → Type 0
Outside start b = (b < start) ⊎ (start + logsize < b)

abbrev pub Unlogged : Txn → ℕ → Type 0
Unlogged t b = (i : ℕ) → i < t.n → t.ids i ≢ b

pub record IsWellFormed (t : Txn) : Type 0 where
  pub small : t.n ≤ logsize
  pub home : (i : ℕ) → i < t.n → Outside t.start (t.ids i)
  pub distinct : (i j : ℕ) → i < j → j < t.n → t.ids i ≢ t.ids j

abbrev pub SameRest : Txn → Disk → Type 0
SameRest t d = (b : ℕ) → Outside t.start b → Unlogged t b → d b ≡ t.base b

abbrev pub Logs : Txn → ℕ → Disk → Type 0
Logs t k d = (i : ℕ) → i < k → d (t.start + i + 1) ≡ t.content i

abbrev pub Installed : Txn → ℕ → Disk → Type 0
Installed t k d = (i : ℕ) → i < k → d (t.ids i) ≡ t.content i

-- Nothing of the transaction is at home, and the header says that the log is empty.
abbrev pub IsOld : Txn → Disk → Type 0
IsOld t d = (d t.start 0 ≡ 0) × ((b : ℕ) → Outside t.start b → d b ≡ t.base b)

-- The log and its header hold the transaction; of the blocks at home, only the others are known.
pub record IsCommitted (t : Txn) (d : Disk) : Type 0 where
  pub head : d t.start 0 ≡ t.n
  pub names : (i : ℕ) → i < t.n → d t.start (suc i) ≡ t.ids i
  pub logs : Logs t t.n d
  pub rest : SameRest t d

-- The whole transaction is at home, and the header says that the log is empty.
abbrev pub IsNew : Txn → Disk → Type 0
IsNew t d = (d t.start 0 ≡ 0) × SameRest t d × Installed t t.n d

-- Every disk since the start of the history, the present one included, satisfies `P`.
abbrev pub Throughout : (Disk → Type 0) → Log → Type 0
Throughout P s = P s.disk × All P s.history

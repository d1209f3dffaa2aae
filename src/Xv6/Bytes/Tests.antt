-- ===== src/Xv6/Bytes/Tests.antt =====
-- The memory theorems at overlapping ranges and a short string.
use os_projects.Base.{ℕ, ◌+◌, ◌%◌, ◌<◌, ◌≤◌, ◌≡◌, ◌⊎◌}
use os_projects.Xv6.Bytes.{memmove, memset}
use os_projects.Xv6.Bytes.Move.{memmove_lem, memset_lem}

abbrev bytes : ℕ → ℕ
bytes a = a % 7

memmove_lem_example :
    ((j : ℕ) → j < 6 → memmove 12 10 6 bytes (12 + j) ≡ bytes (10 + j))
    × ((j : ℕ) → (j < 12) ⊎ (12 + 6 ≤ j) → memmove 12 10 6 bytes j ≡ bytes j)
memmove_lem_example = memmove_lem 12 10 6 bytes

memset_lem_example :
    ((j : ℕ) → 8 ≤ j → j < 8 + 12 → memset 8 261 12 bytes j ≡ 261 % 256)
    × ((j : ℕ) → (j < 8) ⊎ (8 + 12 ≤ j) → memset 8 261 12 bytes j ≡ bytes j)
memset_lem_example = memset_lem 8 261 12 bytes

-- ===== src/Server.antt =====
-- filesystem/server.c: the file server. The image file is a function of the byte address; `int` and
-- `unsigned int` values are 32-bit patterns, and -1 is `minus_one`. A read past the end of the image
-- is not modelled: the image holds every address that is used. `fsread` takes its address as an int:
-- from 2^31 on the seek fails, and the read goes on at the offset of the last operation. That offset is
-- not modelled; what such a read finds is the field `astray`.
pub mod Codec
pub mod Handlers
mod Tests
use os_projects.Memory.{read_bytes, write_bytes, bytes_of, int_at, read_ints, bytes_of_ints}
use os_projects.Base.{
  ℕ, zero, suc, ◌+◌, ◌-◌, ◌*◌, ◌/◌, ◌%◌, ◌^◌, Bool, true, false, ◌&&◌, ◌||◌, not, ◌==◌, ltb, leb,
  if◌then◌else◌, List, [], ◌∷◌, ◌++◌, Option, none, some, update, get_or, set, take, drop, length,
  replicate,
}
use Prim.Native.Nat.{bit_or}

abbrev pub ufs_block_size : ℕ
ufs_block_size = 4096

abbrev pub direct_ptrs : ℕ
direct_ptrs = 30

abbrev pub minus_one : ℕ
minus_one = 2 ^ 32 - 1

-- `super_t`, the fields that the server uses.
pub record Super : Type 0 where
  pub inode_bitmap_addr : ℕ
  pub data_bitmap_addr : ℕ
  pub inode_region_addr : ℕ
  pub data_region_addr : ℕ
  pub data_region_len : ℕ
  pub num_inodes : ℕ

-- `inode_t`; `type` 0 is a directory and 1 a regular file.
pub record Inode : Type 0 where
  pub type : ℕ
  pub size : ℕ
  pub direct : List ℕ

-- The globals of the server, with the image behind `fd`. `junk` is what the memory that `malloc`
-- returns for an inode holds, and `junk_name` what a name has on the stack.
pub record Server : Type 0 where
  pub image : ℕ → ℕ
  pub astray : ℕ → ℕ
  pub super : Super
  pub highest_inode : ℕ
  pub hghst_alloc_dblk : ℕ
  pub junk : Inode
  pub junk_name : List ℕ

-- What a read at an address finds: `lseek` takes the int, and fails on a negative one.
pub view : ℕ → Server → ℕ → ℕ
view a s = if ltb a (2 ^ 31) then s.image else s.astray

-- `fsread` of an int
pub fsread_int : ℕ → Server → ℕ
fsread_int addr s = let a = addr % 2 ^ 32 in int_at (view a s) a

pub fsread : ℕ → ℕ → Server → List ℕ
fsread addr n s = let a = addr % 2 ^ 32 in read_bytes (view a s) a n

pub fswrite : ℕ → List ℕ → Server → Server
fswrite addr xs s = record s { image = write_bytes s.image (addr % 2 ^ 32) xs }

-- `mask`: the bit of a number in its word, from the left.
pub mask : ℕ → ℕ
mask num = 2 ^ (32 - num % 32 - 1)

-- `bmaddr`: the address of the word of a bitmap that holds the bit of a number.
pub bmaddr : ℕ → ℕ → ℕ
bmaddr start inum = (start * ufs_block_size + inum / 32 * 4) % 2 ^ 32

abbrev pub inode_addr : Server → ℕ → ℕ
inode_addr s inum = (s.super.inode_region_addr * ufs_block_size + inum * 128) % 2 ^ 32

-- `read_inode`: `none` if it returns -1 and leaves the caller's buffer as it was. The test is
-- `ibm && mask(inum)`, and `mask` is never 0.
pub read_inode : ℕ → Server → Option Inode
read_inode inum s =
    let ibm = fsread_int (bmaddr s.super.inode_bitmap_addr inum) s in
    let a = inode_addr s inum in
    if not (ibm == 0) && not (mask inum == 0)
    then some (record {
      type = int_at (view a s) a;
      size = int_at (view a s) (a + 4);
      direct = read_ints direct_ptrs (a + 8) (view a s);
    })
    else none

-- The inode that a caller sees, who does not look at the result of `read_inode`.
pub load_inode : ℕ → Server → Inode
load_inode inum s = elim (read_inode inum s) [ none ↦ s.junk | some nd ↦ nd ]

pub inode_bytes : Inode → List ℕ
inode_bytes nd = bytes_of nd.type ++ (bytes_of nd.size ++ bytes_of_ints nd.direct)

pub write_inode : ℕ → Inode → Server → Server
write_inode inum nd s = fswrite (inode_addr s inum) (inode_bytes nd) s

-- `alloc_dblk`: -1 as `none`.
pub alloc_dblk : Server → Option ℕ × Server
alloc_dblk s =
    if s.hghst_alloc_dblk == ((s.super.data_region_len + 2 ^ 32 - 1) % 2 ^ 32)
    then (none, s)
    else (let h = (s.hghst_alloc_dblk + 1) % 2 ^ 32 in
        let a = bmaddr s.super.data_bitmap_addr h in
        (
          some (s.super.data_region_addr + h),
          record (fswrite a (bytes_of (bit_or (fsread_int a s) (mask h))) s) {
            hghst_alloc_dblk = h;
          },
        ))

pub fresh_inode : ℕ → Inode
fresh_inode t = record { type = t; size = 0; direct = replicate direct_ptrs minus_one }

-- `new_inode`: -1 as `none`.
pub new_inode : ℕ → Server → Option ℕ × Server
new_inode t s =
    if s.highest_inode == ((s.super.num_inodes + 2 ^ 32 - 1) % 2 ^ 32)
    then (none, s)
    else (let h = (s.highest_inode + 1) % 2 ^ 32 in
        let a = bmaddr s.super.inode_bitmap_addr h in
        let s1 =
          fswrite a (bytes_of (bit_or (fsread_int a s) (mask h)))
            (record s { highest_inode = h }) in
        (some h, write_inode h (fresh_inode t) s1))

-- The characters of a C string in a buffer.
pub cstring : List ℕ → List ℕ
cstring [] = []
cstring (c ∷ cs) = let rest = cstring cs in if c == 0 then [] else c ∷ rest

-- `strcmp(a, b) == 0` on C strings
pub str_eq : List ℕ → List ℕ → Bool
str_eq [] [] = true
str_eq (a ∷ as') (b ∷ bs) = (a == b) && str_eq as' bs
str_eq _ _ = false

-- `dir_ent_t` at its address: the name is the C string that starts there, and the inum the last word.
pub record DirEnt : Type 0 where
  pub name : List ℕ
  pub inum : ℕ

pub read_ent : ℕ → Server → DirEnt
read_ent addr s =
    let a = addr % 2 ^ 32 in
    record { name = cstring (fsread a 32 s); inum = int_at (view a s) (a + 28) }

-- The inner loop of `lookup_file`: `k` entries from the address `a` on.
pub lookup_block : ℕ → ℕ → List ℕ → Server → Option (DirEnt × ℕ)
lookup_block zero a name s = none
lookup_block (suc k) a name s =
    let de = read_ent a s in
    let rest = lookup_block k (a + 32) name s in
    if str_eq de.name name && not (de.inum == minus_one) then some (de, a % 2 ^ 32) else rest

-- The outer loop: `k` blocks, the numbers of which are the list's.
pub lookup_blocks : ℕ → List ℕ → List ℕ → Server → Option (DirEnt × ℕ)
lookup_blocks zero bs name s = none
lookup_blocks (suc k) [] name s = none
lookup_blocks (suc k) (b ∷ bs) name s =
    let rest = lookup_blocks k bs name s in
    elim (lookup_block 128 (b * ufs_block_size) name s) [ none ↦ rest | some r ↦ some r ]

-- `lookup_file`: the entry and its address. `nd->size` is not negative; a directory of more blocks
-- than an inode names is not modelled.
pub lookup_file : ℕ → List ℕ → Server → Option (DirEnt × ℕ)
lookup_file pinum name s =
    let nd = load_inode pinum s in
    if nd.type == 0
    then lookup_blocks ((nd.size + ufs_block_size - 1) / ufs_block_size) nd.direct name s
    else none

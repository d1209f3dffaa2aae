-- ===== src/Server/Handlers.antt =====
-- The operations of filesystem/server.c on files, and the dispatch of `run_udp`.
use os_projects.Base.{
  ℕ, zero, suc, ◌+◌, ◌-◌, ◌*◌, ◌/◌, ◌%◌, Bool, true, false, ◌&&◌, ◌||◌, not, ◌==◌, ltb, leb,
  if◌then◌else◌, List, [], ◌∷◌, ◌++◌, Option, none, some, get_or, set, take, drop, length,
}
use os_projects.Memory.{bytes_of}
use os_projects.Server.{
  Server, Inode, minus_one, ufs_block_size, direct_ptrs, load_inode, write_inode, alloc_dblk,
  new_inode, lookup_file, fsread, fswrite,
}

-- The loop of `write_file` that gives blocks to the unused pointers, from index `k - 1` down: whether
-- it did not run out of blocks, the pointers and the server.
pub fill_direct : ℕ → List ℕ → Server → Bool × List ℕ × Server
fill_direct zero direct s = (true, direct, s)
fill_direct (suc d) direct s = elim (get_or direct d 0 == minus_one) [
  | false ↦ (true, direct, s)
  | true ↦
      let (b, s') = alloc_dblk s in
      elim b [ none ↦ (false, direct, s') | some ndb ↦ fill_direct d (set direct d ndb) s' ]
]

-- The end of `write_file`: the new size, by unsigned comparison, and the inode.
pub finish_write : ℕ → Inode → ℕ → Server → ℕ × Server
finish_write inum nd last s =
    (0, write_inode inum (record nd { size = if ltb nd.size last then last else nd.size }) s)

-- `write_file` once the pointers up to block `ofd` are in use. `buf` has at least `nbytes` bytes.
pub write_blocks : ℕ → List ℕ → ℕ → ℕ → Inode → Server → ℕ × Server
write_blocks inum buf offset nbytes nd s =
    let ofd = offset / ufs_block_size in
    let ofr = offset % ufs_block_size in
    let offree = ufs_block_size - ofr in
    let at = get_or nd.direct ofd 0 * ufs_block_size + ofr in
    if leb nbytes offree
    then finish_write inum nd (offset + nbytes) (fswrite at (take nbytes buf) s)
    else if ofd == direct_ptrs - 1
    then (minus_one, s)
    else (let (b, s1) = alloc_dblk s in
        elim b [
          | none ↦ (minus_one, s1)
          | some ndb ↦
              let nd' = record nd { direct = set nd.direct (ofd + 1) ndb } in
              let s2 = fswrite at (take offree buf) s1 in
              finish_write inum nd' (offset + nbytes)
                (fswrite (ndb * ufs_block_size) (take (nbytes - offree) (drop offree buf)) s2)
        ])

-- `write_file`: what it returns, 0 or -1, and the server.
pub write_file : ℕ → List ℕ → ℕ → ℕ → ℕ → Server → ℕ × Server
write_file inum buf offset nbytes type s =
    let nd = load_inode inum s in
    let ofd = offset / ufs_block_size in
    if not (nd.type == type)
    then (minus_one, s)
    else if ltb (direct_ptrs - 1) ofd
    then (minus_one, s)
    else (let (fits, direct, s1) = fill_direct (ofd + 1) nd.direct s in
        let nd' = record nd { direct = direct } in
        if fits
        then write_blocks inum buf offset nbytes nd' (write_inode inum nd' s1)
        else (minus_one, s1))

-- `read_file`: what it returns, and the bytes that it puts into `buf`.
pub read_file : ℕ → ℕ → ℕ → Server → ℕ × List ℕ
read_file inum offset nbytes s =
    let nd = load_inode inum s in
    let rdb = offset / ufs_block_size in
    let rds = offset % ufs_block_size in
    let rdf = ufs_block_size - rds in
    let first = get_or nd.direct rdb 0 in
    let second = get_or nd.direct (rdb + 1) 0 in
    if ltb (direct_ptrs - 1) rdb
    then (minus_one, [])
    else if leb nbytes rdf
    then (if first == minus_one
        then (minus_one, [])
        else (0, fsread (first * ufs_block_size + rds) nbytes s))
    else if rdb == direct_ptrs - 1
    then (minus_one, [])
    else if first == minus_one || second == minus_one
    then (minus_one, [])
    else (
      0,
      fsread (first * ufs_block_size + rds) rdf s
          ++ fsread (second * ufs_block_size) (nbytes - rdf) s,
    )

-- The bytes of a directory entry, after `strcpy` of the name over what the stack held.
pub ent_bytes : List ℕ → ℕ → Server → List ℕ
ent_bytes name inum s = (name ++ 0 ∷ drop (length name + 1) s.junk_name) ++ bytes_of inum

pub unused_ents : ℕ → Server → List ℕ
unused_ents zero s = []
unused_ents (suc k) s = (s.junk_name ++ bytes_of minus_one) ++ unused_ents k s

-- The block of a new directory: `.`, `..` and unused entries.
pub dir_block : ℕ → ℕ → Server → List ℕ
dir_block inum pinum s =
    ent_bytes (b'.' ∷ []) inum s ++ (ent_bytes (b'.' ∷ b'.' ∷ []) pinum s ++ unused_ents 126 s)

-- What `creat_file` does for a new directory; `false` if there is no block for it.
pub init_dir : ℕ → ℕ → Server → Bool × Server
init_dir ninum pinum s =
    let nd = load_inode ninum s in
    let (b, s1) = alloc_dblk s in
    elim b [
      | none ↦ (false, s1)
      | some ndb ↦
          let s2 = fswrite (ndb * ufs_block_size) (dir_block ninum pinum s1) s1 in
          (true, write_inode ninum (record nd { direct = set nd.direct 0 ndb; size = 64 }) s2)
    ]

-- `creat_file` with the new inode.
pub link_new : ℕ → ℕ → ℕ → List ℕ → Server → ℕ × Server
link_new pinum type ninum name s =
    let (ready, s1) : Bool × Server = if type == 0 then init_dir ninum pinum s else (true, s) in
    let pind = load_inode pinum s1 in
    let (rc, s2) = write_file pinum (ent_bytes name ninum s1) pind.size 32 0 s1 in
    if ready then (0, s2) else (minus_one, s1)

-- `creat_file`; a name of 28 characters or more, which `strcpy` writes past its field, is not modelled.
pub creat_file : ℕ → ℕ → List ℕ → Server → ℕ × Server
creat_file pinum type name s =
    let pnd = load_inode pinum s in
    let (made, s1) = new_inode type s in
    if not (pnd.type == 0) then (minus_one, s) else elim (lookup_file pinum name s) [
      | some r ↦ (0, s)
      | none ↦ elim made [ none ↦ (minus_one, s1) | some ninum ↦ link_new pinum type ninum name s1 ]
    ]

-- The loop of `unlink_file` over the parent's pointers, whose test assigns the block number `b` of
-- the entry to the pointer: the index where it stops, and the pointers.
pub unlink_scan : ℕ → List ℕ → ℕ × List ℕ
unlink_scan b [] = (0, [])
unlink_scan b (d ∷ ds) =
    let (i, ds') = unlink_scan b ds in
    if d == minus_one then (0, d ∷ ds) else if b == 0 then (i + 1, 0 ∷ ds') else (0, b ∷ ds)

-- The end of `unlink_file`: the parent's size.
pub shrink_parent : ℕ → ℕ → Server → ℕ × Server
shrink_parent pinum addr s =
    let pnd = load_inode pinum s in
    let (i, direct) = unlink_scan (addr / ufs_block_size) pnd.direct in
    let offset = i * ufs_block_size + addr % ufs_block_size in
    (
      0,
      write_inode pinum
          (record pnd { size = if ltb offset pnd.size then offset else pnd.size; direct = direct })
          s,
    )

-- `unlink_file`. The found entry's inum is never -1, as `lookup_file` skips those.
pub unlink_file : ℕ → List ℕ → Server → ℕ × Server
unlink_file pinum name s = elim (lookup_file pinum name s) [
  | none ↦ (minus_one, s)
  | some (de, addr) ↦
      let ind = load_inode de.inum s in
      let cleared = 0 ∷ fsread (addr + 1) 27 s ++ bytes_of minus_one in
      if ind.type == 0 && ltb 64 ind.size
      then (minus_one, s)
      else shrink_parent pinum addr (fswrite addr cleared s)
]

-- What a client asks for, by the constants of message.h.
pub data Request : Type 0 where
  lookup : ℕ → List ℕ → Request
  stat : ℕ → Request
  write : ℕ → List ℕ → ℕ → ℕ → Request
  read : ℕ → ℕ → ℕ → Request
  creat : ℕ → ℕ → List ℕ → Request
  unlink : ℕ → List ℕ → Request
  shutdown : Request
  feedback : Request
  other : Request

-- What the server sends back: `node_num`, with the stat or the bytes, if it sets them.
pub record Reply : Type 0 where
  pub node_num : Option ℕ
  pub st : Option (ℕ × ℕ)
  pub buf : List ℕ

pub reply : ℕ → Reply
reply n = record { node_num = some n; st = none; buf = [] }

abbrev pub no_reply : Reply
no_reply = record { node_num = none; st = none; buf = [] }

-- What one turn of the loop of `run_udp` ends in: another turn, the exit by `end_serv`, or the return
-- of -1.
pub data Turn : Type 0 where
  goes_on : Reply → Server → Turn
  exits : Reply → Server → Turn
  returns : Server → Turn

pub serve : Request → Server → Turn
serve (lookup pinum name) s =
    goes_on (reply (elim (lookup_file pinum name s) [ none ↦ minus_one | some (de, a) ↦ de.inum ]))
      s
serve (stat inum) s =
    let nd = load_inode inum s in goes_on (record (reply 0) { st = some (nd.size, nd.type) }) s
serve (write inum buf offset nbytes) s =
    let (rc, s') = write_file inum buf offset nbytes 1 s in goes_on (reply rc) s'
serve (read inum offset nbytes) s =
    let (rc, bytes) = read_file inum offset nbytes s in
    goes_on (record (reply rc) { buf = bytes }) s
serve (creat pinum type name) s =
    let (rc, s') = creat_file pinum type name s in goes_on (reply rc) s'
serve (unlink pinum name) s = let (rc, s') = unlink_file pinum name s in goes_on (reply rc) s'
serve shutdown s = exits no_reply s
serve feedback s = goes_on no_reply s
serve other s = returns s

-- The loop of `run_udp` over the requests that arrive.
pub run_udp : List Request → Server → List Reply × Server
run_udp [] s = ([], s)
run_udp (q ∷ qs) s = elim (serve q s) [
  | goes_on r s' ↦ let (rs, t) = run_udp qs s' in (r ∷ rs, t)
  | exits r s' ↦ (r ∷ [], s')
  | returns s' ↦ ([], s')
]

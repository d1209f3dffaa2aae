-- ===== src/Server/Tests.antt =====
-- The theorems on filesystem/server.c at a small image.
use os_projects.Base.{
  ℕ, ◌^◌, ◌<◌, ◌≡◌, ◌≢◌, inl, refl, List, ◌∷◌, All, some, update, replicate, arith,
}
use os_projects.Memory.{int_at}
use os_projects.Server.{
  Super, Inode, Server, read_inode, write_inode, fsread_int, bmaddr, fresh_inode, view,
}
use os_projects.Server.Codec.{IsStored, IsApart, read_inode-write_inode}

abbrev small_super : Super
small_super = record {
  inode_bitmap_addr = 1;
  data_bitmap_addr = 2;
  inode_region_addr = 3;
  data_region_addr = 4;
  data_region_len = 3;
  num_inodes = 32;
}

abbrev small : Server
small = record {
  image = update (λ _. 0) 4099 132;
  astray = λ _. 0;
  super = small_super;
  highest_inode = 5;
  hghst_alloc_dblk = 0;
  junk = fresh_inode 1;
  junk_name = replicate 28 7;
}

abbrev pointers : List ℕ
pointers = 5 ∷ 6 ∷ 7 ∷ replicate 27 9

abbrev file : Inode
file = record { type = 1; size = 300; direct = pointers }

pointers-small : All (λ w. w < 2 ^ 32) pointers
pointers-small = ground arith

file-IsStored : IsStored file
file-IsStored = (omega arith, omega arith, pointers-small, refl)

small-IsApart : IsApart small 5 5
unfolding bmaddr
small-IsApart = inl (omega arith)

word_used : fsread_int (bmaddr 1 5) small ≢ 0
unfolding fsread_int view bmaddr int_at
word_used = omega arith

read_inode-write_inode_example : read_inode 5 (write_inode 5 file small) ≡ some file
read_inode-write_inode_example =
    read_inode-write_inode 5 file small file-IsStored small-IsApart (omega arith)
      (unfold bmaddr in omega arith) word_used

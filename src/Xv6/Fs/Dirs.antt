-- ===== src/Xv6/Fs/Dirs.antt =====
-- xv6/base/fs.c: directories. A name is the list of its characters before the end mark.
use os_projects.Base.{
  ℕ, zero, suc, ◌+◌, ◌*◌, ◌/◌, Bool, true, false, ◌&&◌, not, ◌==◌, ltb, if◌then◌else◌, List, ◌++◌,
  Option, none, some, get_or, take, drop, replicate,
}
use os_projects.Xv6.Fs.{done, panics, M, bind}
use os_projects.Xv6.Fs.Inodes.{iget, iput, bytes_of_short}
use os_projects.Xv6.Fs.Files.{Io, fails, count, t_dir, readi, writei}

abbrev pub dirsiz : ℕ
dirsiz = 14

-- `strncmp(s, t, n) == 0`; beyond its list a name has the end mark.
pub same_name : ℕ → List ℕ → List ℕ → Bool
same_name zero s t = true
same_name (suc n) s t =
    let rest = same_name n (drop 1 s) (drop 1 t) in
    if not (get_or s 0 0 == 0) && (get_or s 0 0 == get_or t 0 0)
    then rest
    else get_or s 0 0 == get_or t 0 0

pub namecmp : List ℕ → List ℕ → Bool
namecmp s t = same_name dirsiz s t

-- The `inum` and the name of a `struct dirent` in its 16 bytes.
abbrev pub ent_inum : List ℕ → ℕ
ent_inum e = get_or e 0 0 + 256 * get_or e 1 0

abbrev pub ent_name : List ℕ → List ℕ
ent_name e = drop 2 e

-- `strncpy(de.name, name, DIRSIZ)` and `de.inum`
pub dirent_bytes : List ℕ → ℕ → List ℕ
dirent_bytes name inum = bytes_of_short inum ++ take dirsiz (name ++ replicate dirsiz 0)

module _ (dev_read : ℕ → Option (ℕ → ℕ → M Io)) where
  abbrev no_write : ℕ → Option (ℕ → List ℕ → M Io)
  no_write major = none

  -- `readi` of an entry, or the panic.
  pub read_ent : ℕ → ℕ → M (List ℕ)
  read_ent dp off f =
      bind (readi dev_read no_write dp off 16 f)
        (λ (r, g). elim r [ fails ↦ panics | count e n ↦ if n == 16 then done (e, g) else panics ])

  -- The loop of `dirlookup` from `off` on, `k` rounds being left.
  pub lookup_from : ℕ → ℕ → ℕ → List ℕ → M (Option (ℕ × ℕ))
  lookup_from zero dp off name f = panics
  lookup_from (suc k) dp off name f =
      let round = bind (read_ent dp off f) (λ (e, g).
        let rest = lookup_from k dp (off + 16) name g in
        if not (ent_inum e == 0) && namecmp name (ent_name e)
        then bind (iget (g.icache dp).dev (ent_inum e) g) (λ (i, h). done (some (i, off), h))
        else rest) in
      if ltb off (f.icache dp).size then round else done (none, f)

  -- `dirlookup`: the inode and the offset of its entry. A round goes on by 16 bytes.
  pub dirlookup : ℕ → List ℕ → M (Option (ℕ × ℕ))
  dirlookup dp name f =
      if not ((f.icache dp).type == t_dir)
      then panics
      else lookup_from ((f.icache dp).size / 16 + 2) dp 0 name f

  -- The search of `dirlink` for an empty entry: its offset.
  pub find_empty : ℕ → ℕ → ℕ → M ℕ
  find_empty zero dp off f = panics
  find_empty (suc k) dp off f =
      let round = bind (read_ent dp off f) (λ (e, g).
        let rest = find_empty k dp (off + 16) g in
        if ent_inum e == 0 then done (off, g) else rest) in
      if ltb off (f.icache dp).size then round else done (off, f)

  module _ (dev_write : ℕ → Option (ℕ → List ℕ → M Io)) (pid : ℕ) where
    -- The write of the new entry.
    pub write_ent : ℕ → List ℕ → ℕ → ℕ → M Bool
    write_ent dp name inum off f =
        bind (writei dev_read dev_write dp (dirent_bytes name inum) off f) (λ (r, g). elim r [
          | fails ↦ panics
          | count bytes n ↦ if n == 16 then done (true, g) else panics
        ])

    -- `dirlink`: `false` is the return of -1.
    pub dirlink : ℕ → List ℕ → ℕ → M Bool
    dirlink dp name inum f = bind (dirlookup dp name f) (λ (r, g). elim r [
      | some (i, off) ↦ bind (iput pid i g) (λ (_, h). done (false, h))
      | none ↦
          bind (find_empty ((g.icache dp).size / 16 + 2) dp 0 g)
            (λ (off, h). write_ent dp name inum off h)
    ])

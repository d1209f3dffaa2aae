-- ===== src/Xv6/Fs/Paths.antt =====
-- xv6/base/fs.c: paths. A path is the list of its characters up to its end; a name that fills its
-- DIRSIZ characters has no end mark, and any other is the list of the characters before it.
pub mod Elements
use os_projects.Base.{
  ℕ, zero, suc, ◌+◌, Bool, true, false, ◌&&◌, not, ◌==◌, if◌then◌else◌, List, [], ◌∷◌, Option, none,
  some, take, length,
}
use os_projects.Xv6.Fs.{Fs, Inode, Res, done, sleeps, panics, M, bind, ◌>>=◌, ◌>>◌}
use os_projects.Xv6.Fs.Inodes.{iget, idup, ilock, iunlock, iput, iunlockput}
use os_projects.Xv6.Fs.Files.{Io, t_dir}
use os_projects.Xv6.Fs.Dirs.{dirsiz, dirlookup}

pub skip_slashes : List ℕ → List ℕ
skip_slashes [] = []
skip_slashes (c ∷ cs) = let rest = skip_slashes cs in if c == b'/' then rest else c ∷ cs

-- The characters up to a slash or the end, and what follows.
pub take_elem : List ℕ → List ℕ × List ℕ
take_elem [] = ([], [])
take_elem (c ∷ cs) =
    let (name, rest) = take_elem cs in if c == b'/' then ([], c ∷ cs) else (c ∷ name, rest)

-- `skipelem` after the leading slashes: the name and the path after it.
pub cut_elem : List ℕ → Option (List ℕ × List ℕ)
cut_elem [] = none
cut_elem (c ∷ cs) =
    let (name, rest) = take_elem (c ∷ cs) in some (take dirsiz name, skip_slashes rest)

pub skipelem : List ℕ → Option (List ℕ × List ℕ)
skipelem path = cut_elem (skip_slashes path)

module _ (dev_read : ℕ → Option (ℕ → ℕ → M Io)) (pid : ℕ) where
  -- The loop of `namex` from the inode `i`; `none` is the null pointer. A round takes a character of the
  -- path at least, so that as many rounds, and one for the end, are enough.
  pub walk : ℕ → List ℕ → Bool → List ℕ → ℕ → M (Option (ℕ × List ℕ))
  walk zero path parent name i f = panics
  walk (suc fuel) path parent name i f =
      let fail : M (Option (ℕ × List ℕ)) =
        λ g. bind (iunlockput pid i g) (λ (_, h). done (none, h)) in
      let last : M (Option (ℕ × List ℕ)) = λ g. bind (iput pid i g) (λ (_, h). done (none, h)) in
      let down = λ (name' : List ℕ) (path' : List ℕ) (g : Fs).
        bind (dirlookup dev_read i name' g) (λ (r, h). elim r [
          | none ↦ fail h
          | some (next, off) ↦
              bind (iunlockput pid i h) (λ (_, k). walk fuel path' parent name' next k)
        ]) in
      elim (skipelem path) [
        | none ↦ if parent then last f else done (some (i, name), f)
        | some (name', path') ↦ bind (ilock pid i f) (λ (_, g).
            if not ((g.icache i).type == t_dir)
            then fail g
            else if parent && (length path' == 0)
            then bind (iunlock pid i g) (λ (_, h). done (some (i, name'), h))
            else down name' path' g)
      ]

  -- `namex` from the directory `cwd` of the process: the inode, and the last name that was cut off.
  pub namex : List ℕ → Bool → List ℕ → ℕ → M (Option (ℕ × List ℕ))
  namex path parent name cwd f =
      let absolute : Bool = elim path [ [] ↦ false | c ∷ cs ↦ c == b'/' ] in
      bind (if absolute then iget 1 1 f else idup cwd f)
        (λ (i, g). walk (length path + 1) path parent name i g)

  pub namei : List ℕ → ℕ → M (Option (ℕ × List ℕ))
  namei path cwd = namex path false [] cwd

  pub nameiparent : List ℕ → ℕ → M (Option (ℕ × List ℕ))
  nameiparent path cwd = namex path true [] cwd

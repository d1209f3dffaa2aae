-- ===== src/Xv6/Sh/RoundTrip.antt =====
-- The parser reads what the printer writes.
use os_projects.Base.{ℕ, ◌+◌, ◌≡◌, refl, List, [], length, arith}
use os_projects.Xv6.Sh.{Cmd, exec, redir, pipe, list, back, ok, skip_space, parsecmd}
use os_projects.Xv6.Sh.Lex.{skip_space-skip_space}
use os_projects.Xv6.Sh.Printer.{
  print_words, print_block, print, IsPrintable, Grows, print_words-Grows, print-Grows,
}
use os_projects.Xv6.Sh.Commands.{
  ReadsExec, ReadsLine, exec-ReadsExec, redir-ReadsExec, block-ReadsExec,
}
use os_projects.Xv6.Sh.Lines.{
  ReadsPipe, ReadsBacks, exec-ReadsPipe, pipe-ReadsPipe, pipe-ReadsBacks, back-ReadsBacks,
  backs-ReadsLine, list-ReadsLine,
}

-- What the parser does with a command at all four levels.
record Reads (c : Cmd) : Type 0 where
  as_exec : ReadsExec (print c 3) c
  as_pipe : ReadsPipe (print c 2) c
  as_backs : ReadsBacks (print c 1) c
  as_line : ReadsLine (print c 0) c

-- A command that is one of a pipe.
exec-Reads :
    (p : List ℕ → List ℕ) (c : Cmd)
    → Grows p
    → ReadsExec p c
    → ReadsPipe p c × ReadsBacks p c × ReadsLine p c
exec-Reads p c g e =
    let i = exec-ReadsPipe p c e in let b = pipe-ReadsBacks p c g i in (i, b, backs-ReadsLine p c b)

print-Reads : (c : Cmd) → IsPrintable c → Reads c
print-Reads (exec ws) (l, a) =
    let e = exec-ReadsExec ws l a in
    let (i, b, n) = exec-Reads (print_words ws) (exec ws) (print_words-Grows ws) e in
    record { as_exec = e; as_pipe = i; as_backs = b; as_line = n }
print-Reads (redir c file mode fd) (h, (w, m)) =
    let e = redir-ReadsExec (print c 3) c file mode fd w m (print-Reads c h).as_exec in
    let (i, b, n) =
      exec-Reads (print (redir c file mode fd) 3) (redir c file mode fd)
        (print-Grows (redir c file mode fd) 3) e in
    record { as_exec = e; as_pipe = i; as_backs = b; as_line = n }
print-Reads (pipe c d) (h, h') =
    let p = print (pipe c d) 2 in
    let g = print-Grows (pipe c d) 2 in
    let i =
      pipe-ReadsPipe (print c 3) (print d 2) c d (print-Grows c 3) (print-Reads c h).as_exec
        (print-Reads d h').as_pipe in
    let b = pipe-ReadsBacks p (pipe c d) g i in
    let n = backs-ReadsLine p (pipe c d) b in
    record { as_exec = block-ReadsExec p (pipe c d) g n; as_pipe = i; as_backs = b; as_line = n }
print-Reads (list c d) (h, h') =
    let p = print (list c d) 0 in
    let g = print-Grows (list c d) 0 in
    let n =
      list-ReadsLine (print c 1) (print d 0) c d (print-Grows c 1) (print-Reads c h).as_backs
        (print-Reads d h').as_line in
    let e = block-ReadsExec p (list c d) g n in
    let (i, b, n') = exec-Reads (print_block p) (list c d) (print-Grows (list c d) 3) e in
    record { as_exec = e; as_pipe = i; as_backs = b; as_line = n }
print-Reads (back c) h =
    let p = print (back c) 1 in
    let g = print-Grows (back c) 1 in
    let b = back-ReadsBacks (print c 1) c (print-Reads c h).as_backs in
    let n = backs-ReadsLine p (back c) b in
    let e = block-ReadsExec p (back c) g n in
    record {
      as_exec = e;
      as_pipe = exec-ReadsPipe (print_block p) (back c) e;
      as_backs = b;
      as_line = n;
    }

-- `parsecmd` of a printed command, with no more than spaces after it, returns the command.
pub parsecmd-print :
    (c : Cmd) (spaces : List ℕ)
    → IsPrintable c
    → skip_space spaces ≡ []
    → parsecmd (print c 0 spaces) ≡ ok c
unfolding parsecmd
parsecmd-print c spaces h e =
    rw
      (
        (print-Reads c h).as_line (length (print c 0 spaces) + 3) spaces (rw e refl) (omega arith),
        skip_space-skip_space spaces,
        e,
      )
      refl

-- ===== src/Xv6/Pipe/Tests.antt =====
-- Runs of a pipe, and its theorems at concrete states.
use os_projects.Base.{◌≡◌, ◌^◌, ◌-◌, refl, true, false, [], ◌∷◌, arith}
use os_projects.Xv6.Pipe.{Pipe, put, pipewrite}
use os_projects.Xv6.Pipe.Fifo.{IsValid, contents}
use os_projects.Xv6.Pipe.Write.{Writes, pipewrite_lem}
use os_projects.Xv6.Pipe.Stream.{writes, reads, closes, Kept, run, start, run-Kept}

-- The counters are about to wrap.
abbrev late : Pipe
late = record {
  bytes = λ i. i;
  nread = 2 ^ 32 - 2;
  nwrite = 2 ^ 32 - 1;
  readopen = true;
  writeopen = true;
  woken = [];
  freed = false;
}

late-IsValid : IsValid late
late-IsValid = omega arith

write_wraps : contents (put 8 (put 9 late)) ≡ 510 ∷ 9 ∷ 8 ∷ []
unfolding put
write_wraps = refl

pipewrite_lem_example : Writes false (9 ∷ 8 ∷ []) late (pipewrite false (9 ∷ 8 ∷ []) late)
pipewrite_lem_example = pipewrite_lem false (9 ∷ 8 ∷ []) late late-IsValid

run-Kept_example : Kept (
    run
      (start (λ _. 0))
      (reads false 2 ∷ writes false (5 ∷ 6 ∷ 7 ∷ []) ∷ reads false 2 ∷ closes true ∷ []))
run-Kept_example =
    run-Kept (λ _. 0)
      (reads false 2 ∷ writes false (5 ∷ 6 ∷ 7 ∷ []) ∷ reads false 2 ∷ closes true ∷ [])

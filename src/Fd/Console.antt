-- ===== src/Fd/Console.antt =====
-- `fd_init_process`: the consoles of a new process.
use spike_os.Prelude.{
  ℕ, zero, suc, ◌<◌, ◌≡◌, refl, Option, none, some, arith, length, get_or, replicate, length-set,
  length-replicate, get_or-set, ◌∙◌,
}
use spike_os.Prelude.Int.{pos}
use spike_os.Fd.{
  console, OpenFile, zero_file, rdonly, wronly, max_fds, FdTable, Files, tag_console, init_console,
  fd_init_process,
}
use spike_os.Fd.Counting.{Counted, Counted-install}
use spike_os.Fd.Create.{Opened, opened, refused, alloc_open_file-Opened, rewritten, claim-Counted}

-- One console entry made, or none: the entries from `next` on are free.
record Started (other : ℕ → ℕ) (next : ℕ) (r : FdTable × Files) : Type 0 where
  balanced : Counted other r.0 r.1
  size : length r.0 ≡ max_fds
  free : (j : ℕ) → next < suc j → j < max_fds → get_or r.0 j (some 0) ≡ none

abbrev console_file : ℕ → OpenFile
console_file flags = record {
  kind = console;
  flags = flags;
  ino = 0;
  offset = 0;
  refcount = pos 1;
  pipe = none;
}

tag_console-Started :
    (other : ℕ → ℕ) (fd flags : ℕ) (fds : FdTable) (f : Files) (r : Option ℕ × Files)
    → fd < max_fds
    → Opened (record zero_file { refcount = pos 1 }) f r
    → Started other fd (fds, f)
    → Started other (suc fd) (tag_console fd flags fds r)
unfolding tag_console
tag_console-Started other fd flags fds f r lt (refused all e) s =
    rw e record { balanced = s.balanced; size = s.size; free = λ j h l. s.free j (omega arith) l }
tag_console-Started other fd flags fds f r lt (opened i here idle e) s =
    rw
      (
        e,
        rewritten f i (record zero_file { refcount = pos 1 })
            (λ of. record of { kind = console; flags = flags }) here,
      )
      record {
        balanced =
            Counted-install fd i other fds _ (omega (arith, s.size)) (s.free fd (omega arith) lt)
              (claim-Counted i (console_file flags) other fds f here idle refl refl s.balanced);
        size = length-set fds fd (some i) ∙ s.size;
        free = λ j h l.
            ground (arith, get_or-set fds fd j (some i) (some 0), s.free j (omega arith) l, s.size);
      }

init_console-Started :
    (other : ℕ → ℕ) (fd flags : ℕ) (r : FdTable × Files)
    → fd < max_fds
    → Started other fd r
    → Started other (suc fd) (init_console fd flags r)
unfolding init_console
init_console-Started other fd flags (fds, f) lt s =
    tag_console-Started other fd flags fds f _ lt (alloc_open_file-Opened f) s

all_free : (n j : ℕ) → j < n → get_or {A = Option ℕ} (replicate n none) j (some 0) ≡ none
all_free zero j lt = elim lt [ ]
all_free (suc n) zero lt = refl
all_free (suc n) (suc j) lt = all_free n j (omega arith)

-- `fd_init_process` for a process without descriptors keeps every reference count equal to the number of
-- descriptors.
pub fd_init_process-Counted :
    (other : ℕ → ℕ) (f : Files)
    → Counted other (replicate max_fds none) f
    → let (fds, f') = fd_init_process f in Counted other fds f' × (length fds ≡ max_fds)
unfolding fd_init_process
fd_init_process-Counted other f c =
    let s = init_console-Started other 2 wronly _ (omega arith) (
      init_console-Started other 1 wronly _ (omega arith)
        (init_console-Started other 0 rdonly _ (omega arith) begin)) in
    (s.balanced, s.size)
  where
    begin : Started other 0 (replicate max_fds none, f)
    begin = record {
      balanced = c;
      size = length-replicate {A = Option ℕ} max_fds none;
      free = λ j h l. all_free max_fds j l;
    }

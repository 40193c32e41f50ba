-- ===== src/Files/Tests.antt =====
-- Tests of the file table.
use fog_os.Prelude.{◌≡◌, refl, arith, true, false, ◌==◌, if◌then◌else◌, none, some, Outcome}
use fog_os.Files.{FileTable, FileType, Closing, alloc_loop, filealloc, fileclose}
use fog_os.Files.Calls.{Sys, sys_dup}
use fog_os.Files.Descriptors.{Counted, uses, Dup, sys_dup-Dup}
use fog_os.Files.Count.{Open, taken, alloc, fresh, later, IsSound, Reach-IsSound}

abbrev empty : FileTable
empty i = record {
  type = FileType.fd_none;
  ref = 0;
  readable = false;
  writable = false;
  ip = 0;
  off = 0;
  major = 0;
}

abbrev one_open : Open
one_open = record {
  table = (filealloc empty).1;
  holders = taken (record { table = empty; holders = λ i. 0 }) (filealloc empty).0;
}

first_file : (filealloc empty).0 ≡ some 0
unfolding filealloc alloc_loop
first_file = refl

-- The last close of a pipe's writing end closes that end.
abbrev closing_of : Outcome (Closing × FileTable) → Closing
closing_of (Outcome.ok r) = r.0
closing_of (Outcome.panic why) = Closing.nothing

last_close :
    closing_of
      (fileclose 3 (λ i. record (empty i) { type = FileType.fd_pipe; ref = 1; writable = true }))
    ≡ Closing.close_pipe true
unfolding fileclose
last_close = refl

Reach-IsSound_example : IsSound one_open
Reach-IsSound_example = Reach-IsSound {o = one_open} (later (fresh empty (λ i. refl)) alloc)

-- A process with file 3 at descriptor 0.
abbrev one_file : Sys
one_file = record {
  opened = record {
    files = λ i. record (empty i) { ref = if i == 3 then 1 else 0 };
    world = record {
      blocks = λ b i. 0;
      inode = λ ip. record {
        dev = 1;
        inum = 0;
        ref = 0;
        valid = false;
        disk = record { type = 0; major = 0; minor = 0; nlink = 0; size = 0; addrs = λ i. 0 };
      };
      mem = λ a. 0;
    };
  };
  ofile = λ i. if i == 0 then some 3 else none;
  cwd = 0;
}

one_file-Counted : Counted (λ f. 0) one_file
unfolding uses
one_file-Counted = record { counts = λ f. ground arith; room = λ f. ground arith }

sys_dup-Dup_example : Dup (λ f. 0) 0 one_file (sys_dup 0 one_file)
sys_dup-Dup_example = sys_dup-Dup (λ f. 0) 0 one_file one_file-Counted

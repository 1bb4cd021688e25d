-- ===== src/FileTable/Tests.antt =====
-- file.c: one open file on an inode, which descriptor 0 refers to.
use yonix.Base.{ltb, if◌then◌else◌, ℕ, ◌+◌, true, false, none, some, [], arith, update}
use yonix.Base.Int.{ℤ, pos, negsuc}
use yonix.Syscall.{User}
use yonix.FileTable.{fd_none, fd_inode, File, Files, sys_dup, sys_close}
use yonix.FileTable.Refs.{Counted, Keeps, dup_close-Keeps}

abbrev closed : File
closed = record {
  type = fd_none;
  ref = 0;
  readable = false;
  writable = false;
  pipe = 0;
  ip = 0;
  off = 0;
}

abbrev opened : File
opened = record {
  type = fd_inode;
  ref = 1;
  readable = true;
  writable = true;
  pipe = 0;
  ip = 7;
  off = 100;
}

abbrev files : Files
files = record {
  table = update (λ i. closed) 3 opened;
  of = update (λ fd. none) 0 (some 3);
  effects = [];
}

abbrev user : User
user = record { size = 64; esp = 16; mem = λ a. 0; pid = 3; killed = false; nice = pos 0 }

files-Counted : Counted (λ i. 0) files
files-Counted i = ground arith

dup_close_example : Keeps (λ i. 0) (sys_dup user files) × Keeps (λ i. 0) (sys_close user files)
dup_close_example = dup_close-Keeps user (λ i. 0) files files-Counted

-- An inode that takes 9000 bytes.
abbrev takes_some : ℕ → ℕ → ℤ
takes_some off n = if ltb 9000 (off + n) then negsuc 0 else pos n

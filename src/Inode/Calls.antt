-- ===== src/Inode/Calls.antt =====
-- readi and writei with the calls of log_write that they make.
use yonix.Base.{ℕ, Bool, List, drop, length}
use yonix.Fs.{Disk}
use yonix.Log.{Log, Call, returns, with_log}
use yonix.Inode.{
  Inode, Read, device_read, read_failed, read_bytes, read_panics, readi, Write, device_write,
  write_failed, written, write_panics, writei,
}

-- The blocks for which log_write has been called since `s`.
abbrev pub logged_since : Disk → Disk → List ℕ
logged_since s t = drop (length s.logged) t.logged

abbrev pub read_call : Disk → Log → Read → Call Read
read_call s l (device_read major) = returns (device_read major) l
read_call s l read_failed = returns read_failed l
read_call s l (read_bytes xs ip t) = with_log (read_bytes xs ip t) (logged_since s t) l
read_call s l (read_panics t) = with_log (read_panics t) (logged_since s t) l

unfoldable pub readi_call : (ℕ → Bool) → Inode → ℕ → ℕ → Disk → Log → Call Read
readi_call entry ip off n s l = read_call s l (readi entry ip off n s)

abbrev pub write_call : Disk → Log → Write → Call Write
write_call s l (device_write major) = returns (device_write major) l
write_call s l write_failed = returns write_failed l
write_call s l (written n ip t) = with_log (written n ip t) (logged_since s t) l
write_call s l (write_panics t) = with_log (write_panics t) (logged_since s t) l

unfoldable pub writei_call : (ℕ → Bool) → Inode → List ℕ → ℕ → Disk → Log → Call Write
writei_call entry ip src off s l = write_call s l (writei entry ip src off s)

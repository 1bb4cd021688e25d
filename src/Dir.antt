-- ===== src/Dir.antt =====
-- fs.c: directories: dirlookup and dirlink.
-- A `name` is a buffer of characters. Of iget and iput, which dirlookup and dirlink call, the arguments
-- are given: a result holds the number that iget is called with.
pub mod Entries
pub mod Lookup
pub mod Names
pub mod Slots
pub mod Link
pub mod RoundTrip
mod Tests
use yonix.Base.{
  ℕ, zero, suc, ◌+◌, ◌-◌, ◌*◌, ◌/◌, ◌%◌, ◌^◌, ◌≤◌, ◌<◌, min, bit_and, bit_or, bit_xor, ◌≡◌, refl,
  sym, ap, ap₂, ◌∙◌, fun_ext, subst, ◌≢◌, ◌↔◌, ◌⊎◌, inl, inr, Bool, true, false, not, ◌&&◌, ◌||◌,
  Option, none, some, List, [], ◌∷◌, ◌++◌, map, append-nil, append_assoc, arith, dec_lt, dec_le,
  ℕ_discrete, Mem, update, ltb, leb, ◌==◌, if◌then◌else◌, ltb→lt, lt→ltb, le→ltb, ==_refl, ==_iff,
  Bool-cases, Option-cases, Nat-cases, length, get_elem?, get_or, set, take, drop, replicate, All,
  length-append, length-set, get_or-set_self, get_or-set_ne, length-replicate,
}
use yonix.Base.Int.{ℤ, pos}
use yonix.Cstring.{strncmp, strncpy}
use yonix.Fs.{Disk}
use yonix.Inode.{
  Inode, t_dir, slice, Read, device_read, read_failed, read_bytes, read_panics, readi, Write,
  device_write, write_failed, written, write_panics, writei,
}

abbrev pub dirsiz : ℕ
dirsiz = 14

-- `sizeof(de)`
abbrev pub entry_size : ℕ
entry_size = 16

-- The variables of a call: `name` is at 0, and `de` at 16, so `de.fname` is at 18.
abbrev pub frame : Mem → List ℕ → Mem
frame name de i = if ltb i 16 then name i else get_or de (i - 16) 0

abbrev pub is_zero : ℤ → Bool
is_zero (pos n) = n == 0
is_zero (ℤ.negsuc n) = false

-- namecmp
pub namecmp : Mem → List ℕ → ℤ
namecmp name de = strncmp 0 18 dirsiz (frame name de)

-- `de.inum`
abbrev pub entry_inum : List ℕ → ℕ
entry_inum de = get_or de 0 0 + 256 * get_or de 1 0

-- What dirlookup gives: the inode number and the offset of the entry, 0, or a panic.
pub data Looked : Type 0 where
  found : (inum off : ℕ) → Inode → Disk → Looked
  missing : Inode → Disk → Looked
  lookup_panics : Disk → Looked

-- One round of the loop, with the entry at `off`; `next` is the rest of the loop.
abbrev pub try_entry : Disk → Mem → ℕ → (Inode → Disk → Looked) → Read → Looked
try_entry s name off next (device_read major) = lookup_panics s
try_entry s name off next read_failed = lookup_panics s
try_entry s name off next (read_panics t) = lookup_panics t
try_entry s name off next (read_bytes de ip t) =
    if length de == entry_size
    then (if entry_inum de == 0
        then next ip t
        else if is_zero (namecmp name de)
        then found (entry_inum de) off ip t
        else next ip t)
    else lookup_panics t

-- The loop from `off` on, with fuel. No directory is a device.
pub lookup_from : ℕ → ℕ → Mem → Inode → Disk → Looked
lookup_from zero off name ip s = missing ip s
lookup_from (suc fuel) off name ip s =
    if ltb off ip.size
    then try_entry s name off (lookup_from fuel (off + entry_size) name)
        (readi (λ m. false) ip off entry_size s)
    else missing ip s

pub dirlookup : Mem → Inode → Disk → Looked
dirlookup name ip s =
    if ip.type == t_dir then lookup_from (ip.size / entry_size + 1) 0 name ip s else lookup_panics s

-- Where the loop of dirlink for an empty entry ends.
pub data Slot : Type 0 where
  slot_at : (off : ℕ) → Inode → Disk → Slot
  slot_panics : Disk → Slot

abbrev pub try_slot : Disk → ℕ → (Inode → Disk → Slot) → Read → Slot
try_slot s off next (device_read major) = slot_panics s
try_slot s off next read_failed = slot_panics s
try_slot s off next (read_panics t) = slot_panics t
try_slot s off next (read_bytes de ip t) =
    if length de == entry_size
    then (if entry_inum de == 0 then slot_at off ip t else next ip t)
    else slot_panics t

pub slot_from : ℕ → ℕ → Inode → Disk → Slot
slot_from zero off ip s = slot_at off ip s
slot_from (suc fuel) off ip s =
    if ltb off ip.size
    then try_slot s off (slot_from fuel (off + entry_size)) (readi (λ m. false) ip off entry_size s)
    else slot_at off ip s

-- The 16 bytes of `de` when it is written; the name of 14 bytes is filled up with NULs.
pub entry_bytes : Mem → ℕ → List ℕ
entry_bytes name inum =
    inum % 256 ∷ inum / 256 % 256 ∷ slice dirsiz 18 (strncpy 18 0 dirsiz (frame name []))

-- What dirlink gives: -1 because the name is there, 0, or a panic.
pub data Linked : Type 0 where
  link_exists : (inum : ℕ) → Inode → Disk → Linked
  linked : Inode → Disk → Linked
  link_panics : Disk → Linked

abbrev pub link_written : Disk → Write → Linked
link_written s (device_write major) = link_panics s
link_written s write_failed = link_panics s
link_written s (write_panics t) = link_panics t
link_written s (written n ip t) = if n == entry_size then linked ip t else link_panics t

abbrev pub link_slot : Mem → ℕ → Slot → Linked
link_slot name inum (slot_panics t) = link_panics t
link_slot name inum (slot_at off ip s) =
    link_written s (writei (λ m. false) ip (entry_bytes name inum) off s)

abbrev pub link_looked : Mem → ℕ → Looked → Linked
link_looked name inum (found i off ip s) = link_exists i ip s
link_looked name inum (lookup_panics t) = link_panics t
link_looked name inum (missing ip s) =
    link_slot name inum (slot_from (ip.size / entry_size + 1) 0 ip s)

pub dirlink : Mem → ℕ → Inode → Disk → Linked
dirlink name inum ip s = link_looked name inum (dirlookup name ip s)

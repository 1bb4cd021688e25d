-- ===== src/FileTable/Chunks.antt =====
-- The writes that filewrite asks for, whatever writei does with them.
use yonix.Base.{ℕ, ◌+◌, ◌≤◌, ◌<◌, ◌≡◌, ◌≢◌, ◌⊎◌, none, some, List, [], ◌∷◌, ltb, if◌then◌else◌}
use yonix.Base.Int.{ℤ, pos, negsuc}
use yonix.FileTable.{
  File, WriteResult, to_pipe, write_panics, no_fuel, written, max_chunk, Progress, stopped,
  short_filewrite, out_of_fuel,
}

-- From offset `a` to `b` in adjacent writes, none empty and none longer than 13 blocks, each of which
-- wrote all its bytes.
abbrev pub AllWritten : (ℕ → ℕ → ℤ) → ℕ → List (ℕ × ℕ) → ℕ → Type 0
AllWritten writei a [] b = a ≡ b
AllWritten writei a ((o, k) ∷ cs) b =
    (o ≡ a) × (0 < k) × (k ≤ max_chunk) × (writei o k ≡ pos k) × AllWritten writei (a + k) cs b

-- The same up to `b`, where the last write, of which nothing counts, failed.
abbrev pub LastFailed : (ℕ → ℕ → ℤ) → ℕ → List (ℕ × ℕ) → ℕ → Type 0
LastFailed writei a [] b = ⊥
LastFailed writei a ((o, k) ∷ cs) b =
    (o ≡ a)
    × (0 < k)
    × (k ≤ max_chunk)
    × (((cs ≡ []) × (b ≡ a) × ((e : ℕ) × (writei o k ≡ negsuc e)))
        ⊎ ((writei o k ≡ pos k) × LastFailed writei (a + k) cs b))

-- Some write within the bytes asked for wrote fewer or more bytes than it was to.
abbrev pub SomeShort : (ℕ → ℕ → ℤ) → ℕ → ℕ → Type 0
SomeShort writei a n =
    (o : ℕ) × (k : ℕ) × (r : ℕ) × (a ≤ o)
    × (0 < k)
    × (o + k ≤ a + n)
    × (writei o k ≡ pos r)
    × (r ≢ k)

-- What the loop leaves that has `left` bytes to write at `off`.
abbrev Loops : (ℕ → ℕ → ℤ) → ℕ → ℕ → ℕ → ℕ → Progress → Type 0
Loops writei n i left off (stopped i' off' cs) =
    ((i' ≡ n) × (off' ≡ off + left) × AllWritten writei off cs off')
    ⊎ ((i' < n) × (off' + n ≡ off + left + i') × LastFailed writei off cs off')
Loops writei n i left off short_filewrite = SomeShort writei off left
Loops writei n i left off out_of_fuel = ⊥

chunk : ℕ → ℕ
chunk left = if ltb max_chunk left then max_chunk else left

-- What filewrite of `n` bytes does, on a file on an inode.
abbrev pub FileWritten : (ℕ → ℕ → ℤ) → File → ℕ → WriteResult → Type 0
FileWritten writei f n (written (some m) f' cs) =
    (m ≡ n) × (f' ≡ record f { off = f.off + n }) × AllWritten writei f.off cs (f.off + n)
FileWritten writei f n (written none f' cs) =
    (f' ≡ record f { off = f'.off }) × (f'.off < f.off + n) × LastFailed writei f.off cs f'.off
FileWritten writei f n write_panics = SomeShort writei f.off n
FileWritten writei f n (to_pipe p) = ⊥
FileWritten writei f n no_fuel = ⊥

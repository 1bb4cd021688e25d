-- ===== src/Syscall/Words.antt =====
-- A word stands for an int.
use yonix.Base.{ℕ, ◌^◌, ◌<◌, ◌≡◌, arith, dec_lt}
use yonix.Words.{word}
use yonix.Syscall.{to_int, of_int}

pub of_int-to_int : (w : ℕ) → w < word → of_int (to_int w) ≡ w
unfolding to_int of_int
of_int-to_int w h = elim (dec_lt w (2 ^ 31)) [ yes p ↦ ground arith | no p ↦ ground arith ]

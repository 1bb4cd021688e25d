-- ===== src/Words.antt =====
-- Words in memory: an int is four bytes, the lowest first.
use yonix.Base.{ℕ, ◌+◌, ◌*◌, ◌/◌, ◌%◌, ◌^◌, ◌≤◌, ◌<◌, ◌≡◌, ◌⊎◌, arith, Mem, update}

abbrev pub word : ℕ
word = 2 ^ 32

unfoldable pub load32 : Mem → ℕ → ℕ
load32 m a = m a + 256 * m (a + 1) + 65536 * m (a + 2) + 16777216 * m (a + 3)

unfoldable pub store32 : Mem → ℕ → ℕ → Mem
store32 m a w =
    update
      (update (update (update m a (w % 256)) (a + 1) (w / 256 % 256)) (a + 2) (w / 65536 % 256))
      (a + 3) (w / 16777216 % 256)

-- What is stored is loaded again.
pub load32-store32 : (m : Mem) (a w : ℕ) → w < word → load32 (store32 m a w) a ≡ w
unfolding load32 store32
load32-store32 m a w h = ground arith

pub load32-store32_apart :
    (m : Mem) (a b w : ℕ) → (b + 4 ≤ a) ⊎ (a + 4 ≤ b) → load32 (store32 m a w) b ≡ load32 m b
unfolding load32 store32
load32-store32_apart m a b w h = ground arith

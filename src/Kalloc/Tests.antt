-- ===== src/Kalloc/Tests.antt =====
-- kalloc.c on a memory of two free pages.
use yonix.Base.{◌≡◌, refl, [], ◌∷◌, arith}
use yonix.Kalloc.{Memory, ok, kfree, kalloc}
use yonix.Kalloc.Pages.{Sound}
use yonix.Kalloc.Runs.{starts, gets, Owned, Run-Owned}

abbrev memory : Memory
memory = record {
  kmem = record { nfreeblock = 2; freelist = 2147487744 ∷ 2147491840 ∷ [] };
  slab = record { nfreeblock = 0; freelist = [] };
}

memory-Sound : Sound memory.kmem
memory-Sound = record {
  counted = refl;
  small = omega arith;
  distinct = ((ground arith, tt), (tt, tt));
}

abbrev freed : Memory
freed = record memory {
  kmem = record { nfreeblock = 3; freelist = 2147495936 ∷ 2147487744 ∷ 2147491840 ∷ [] };
}

kfree_here : kfree 2147483648 2147495936 memory ≡ ok freed
unfolding kfree
kfree_here = refl

abbrev taken : Memory
taken = record memory { kmem = record { nfreeblock = 1; freelist = 2147491840 ∷ [] } }

kalloc_here : kalloc (λ m. m) memory ≡ (2147487744, taken)
unfolding kalloc
kalloc_here = refl

Run-Owned_example : Owned (2147487744 ∷ []) taken.kmem
Run-Owned_example =
    Run-Owned {page_out = λ m. m} {end = 2147483648}
      (gets 2147487744 taken (starts memory memory-Sound) (omega arith) kalloc_here)

-- ===== src/Bio/Tests.antt =====
-- bio.c on the buffers that binit leaves, and on a cache of two buffers of which one is locked.
use yonix.Base.{ℕ, ◌≡◌, refl, sym, ◌∙◌, ◌≢◌, inl, inr, true, false, [], ◌∷◌, arith, update}
use yonix.Bio.{no_dev, initsleeplock, Buf, Cache, binit, bget}
use yonix.Bio.Unique.{In, Unique}
use yonix.Bio.Calls.{Buffered, bget-Buffered}

binit-Unique : Unique binit.buf binit.order
unfolding binit
binit-Unique a b i j used same_dev same_block = absurd (used refl)

bget_example : Buffered 3 1 7 binit (bget 3 1 7 binit)
bget_example = bget-Buffered 3 1 7 binit binit-Unique

abbrev spare : Buf
spare = record {
  valid = false;
  dirty = false;
  dev = no_dev;
  blockno = 0;
  lock = initsleeplock;
  refcnt = 0;
}

abbrev held : Buf
held = record {
  valid = true;
  dirty = false;
  dev = 1;
  blockno = 7;
  lock = record { locked = true; pid = 3 };
  refcnt = 1;
}

abbrev cache : Cache
cache = record { buf = update (λ b. spare) 1 held; order = 0 ∷ 1 ∷ [] }

only_one : (a : ℕ) → In a cache.order → (cache.buf a).dev ≢ no_dev → a ≡ 1
only_one a (inl e) used = absurd (ground arith)
only_one a (inr (inl e)) used = sym e
only_one a (inr (inr x)) used = absurd x

cache-Unique : Unique cache.buf cache.order
cache-Unique a b i j used same_dev same_block =
    only_one a i used ∙ sym (only_one b j (λ e. used (same_dev ∙ e)))

-- ===== src/Swap/Tests.antt =====
-- vm.c: one page in the swap area, and a queue of two pages of which the first has been referenced.
use yonix.Base.{ℕ, ◌*◌, ◌≡◌, refl, ◌≢◌, [], ◌∷◌, arith, update, ◌==◌, if◌then◌else◌}
use yonix.TailQueue.{list_queue}
use yonix.Swap.{ok, alloc_slot, Pages, sel_page, find_from}
use yonix.Swap.Choice.{Chosen, sel_page-Chosen}

abbrev swap_map : ℕ → ℕ
swap_map j = if j == 0 then 4097 else 0

no_page : (j : ℕ) → swap_map j ≢ 8195
no_page j = ground arith

slot_given : alloc_slot 8195 swap_map ≡ ok (8, update swap_map 1 8195)
unfolding alloc_slot find_from
slot_given = refl

abbrev pages : Pages list_queue
pages = record {
  queue = 5 ∷ 6 ∷ [];
  entry = λ x. record { pte = x; id = 4096 * x; ref = x == 5 };
  swap_map = swap_map;
}

sel_page_example : Chosen list_queue (5 ∷ 6 ∷ []) pages (sel_page list_queue pages)
sel_page_example =
    sel_page-Chosen list_queue pages (((λ e. absurd (omega (arith, e))), tt), (tt, tt))

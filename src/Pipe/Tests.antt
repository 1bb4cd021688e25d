-- ===== src/Pipe/Tests.antt =====
-- pipe.c on a new pipe.
use yonix.Base.{ℕ, false, List, [], ◌∷◌, replicate, length-replicate}
use yonix.Pipe.{pipe_init, pipesize, pipewrite, piperead}
use yonix.Pipe.Ring.{IsValid, pipe_init-IsValid}
use yonix.Pipe.Stream.{Written, Taken, pipewrite-Written, piperead-Taken}

abbrev page : List ℕ
page = replicate pipesize 0

new_pipe-IsValid : IsValid (pipe_init page)
new_pipe-IsValid = (pipe_init-IsValid page (length-replicate {A = ℕ} pipesize 0)).0

pipewrite_example :
    Written false (pipe_init page) (7 ∷ 8 ∷ []) 0 (pipewrite false (pipe_init page) (7 ∷ 8 ∷ []))
pipewrite_example = pipewrite-Written false (pipe_init page) (7 ∷ 8 ∷ []) new_pipe-IsValid

piperead_example : Taken false (pipe_init page) 2 (piperead false (pipe_init page) 2)
piperead_example = piperead-Taken false (pipe_init page) 2 new_pipe-IsValid

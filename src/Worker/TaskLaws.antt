-- ===== src/Worker/TaskLaws.antt =====
-- What `compose_task` of agent_runner.py keeps of the earlier turns.
use Prim.Native.String.{len}
use pj_clusterintent.Prelude.{ℕ, String, List, [], ◌∷◌, ◌+◌}

-- The characters of all blocks.
abbrev pub size : List String → ℕ
size [] = 0
size (b ∷ bs) = len b + size bs

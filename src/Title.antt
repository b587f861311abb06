-- ===== src/Title.antt =====
-- The title of a process: app/func_proctitle.cxx, the two sizes that app/nginx.cxx computes, and the
-- title of the master process in proc/proc_cycle.cxx. A block of memory is the list of its bytes, and a
-- pointer into it an index; a result `none` is a write past the block's end.
pub mod Strings
pub mod Master
mod Tests
use my_nignx.Prelude.{
  ◌>>=◌, ℕ, ◌+◌, ◌-◌, Bool, true, List, [], ◌∷◌, ◌++◌, Option, none, some, length, drop, replicate,
  leb, ◌==◌, if◌then◌else◌, codes,
}
use my_nignx.Recv.{overwrite}

-- `strlen(s) + 1` for all strings: `g_arglen` and `g_environlen`.
abbrev pub sizes : List (List ℕ) → ℕ
sizes [] = 0
sizes (s ∷ ss) = length s + 1 + sizes ss

-- A string with its end.
abbrev pub ended : List ℕ → List ℕ
ended s = s ++ (0 ∷ [])

-- The string at the start of a block.
unfoldable pub until_nul : List ℕ → List ℕ
until_nul [] = []
until_nul (b ∷ bs) = let rest = until_nul bs in if b == 0 then [] else b ∷ rest

abbrev pub read_string : List ℕ → ℕ → List ℕ
read_string mem p = until_nul (drop p mem)

-- The loop that copies strings from `p` on: the pointers to the copies, and the block.
unfoldable pub copy_loop : List (List ℕ) → ℕ → List ℕ → Option (List ℕ × List ℕ)
copy_loop [] p mem = some ([], mem)
copy_loop (s ∷ ss) p mem = do
  mem' ← overwrite mem p (ended s)
  r ← copy_loop ss (p + (length s + 1)) mem'
  some (p ∷ r.0, r.1)

-- `environ` and `g_argv` afterwards, with their blocks.
pub record Copies : Type 0 where
  pub environ : List ℕ
  pub envmem : List ℕ
  pub argv : List ℕ
  pub argmem : List ℕ

unfoldable pub init_setproctitle : List (List ℕ) → List (List ℕ) → Option Copies
unfolding copy_loop
init_setproctitle environ argv = do
  e ← copy_loop environ 0 (replicate (sizes environ) 0)
  a ← copy_loop argv 0 (replicate (sizes argv) 0)
  some (record { environ = e.0; envmem = e.1; argv = a.0; argmem = a.1 })

-- The block that the system gave the process for its arguments and its environment, which follow
-- one another, and whether `g_init_argv[1]` is null.
pub record Area : Type 0 where
  pub block : List ℕ
  pub one_argument : Bool

unfoldable pub setproctitle : List ℕ → ℕ → Area → Option Area
setproctitle title sum_size a = if leb sum_size (length title) then some a else (do
  b ← overwrite a.block 0 title
  b' ← overwrite b (length title) (replicate (sum_size - length title) 0)
  some (record { block = b'; one_argument = true }))

unfoldable pub strcat : List ℕ → List ℕ → Option (List ℕ)
unfolding until_nul
strcat mem s = overwrite mem (length (until_nul mem)) (ended s)

unfoldable pub strcat_all : List (List ℕ) → List ℕ → Option (List ℕ)
unfolding strcat
strcat_all [] mem = some mem
strcat_all (s ∷ ss) mem = do mem' ← strcat mem s; strcat_all ss mem'

abbrev pub master_process_title : List ℕ
master_process_title = codes "master process"

-- The array `title` of `master_process_cycle`, of `size` bytes.
unfoldable pub master_title : ℕ → List (List ℕ) → Option (List ℕ)
unfolding strcat strcat_all
master_title size argv = do
  t ← overwrite (replicate size 0) 0 (ended master_process_title)
  t' ← strcat t (codes " ")
  strcat_all argv t'

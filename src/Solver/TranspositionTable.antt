-- ===== src/Solver/TranspositionTable.antt =====
-- MiniZero/TranspositionTable.h: the statuses of positions by their hash keys, in 2 ^ 23 slots.
use proof_cost_network.Base.{ℕ, Bool, Option}
use proof_cost_network.Storage.OpenAddress
use proof_cost_network.Storage.OpenAddress.{Table, Entry, entry_at}
use proof_cost_network.Solver.TreeNode.{SolutionStatus, solution_unknown}

pub record TtEntry : Type 0 where
  pub solution_status : SolutionStatus

-- `TTentry::clear`, also the value of a new entry.
abbrev pub clean_tt_entry : TtEntry
clean_tt_entry = record { solution_status = solution_unknown }

unfoldable pub clear : Table TtEntry → Table TtEntry
clear t = OpenAddress.clear clean_tt_entry t

-- The memory of a new table holds any key.
unfoldable pub new : ℕ → Table TtEntry
unfolding clear
new junk = clear (OpenAddress.new clean_tt_entry junk 23)

-- The index -1 is `none`, and a loop without end is the outer `none`.
unfoldable pub lookup : ℕ → Table TtEntry → Option (Option ℕ)
lookup hashkey t = OpenAddress.lookup clean_tt_entry hashkey t

unfoldable pub store : ℕ → TtEntry → Table TtEntry → Option (Table TtEntry)
store hashkey entry t = OpenAddress.store clean_tt_entry hashkey entry t

unfoldable pub get_entry : ℕ → Table TtEntry → TtEntry
get_entry index t = (entry_at clean_tt_entry t index).content

unfoldable pub get_size : Table TtEntry → ℕ
get_size t = t.count

unfoldable pub is_full : Table TtEntry → Bool
is_full t = OpenAddress.is_full t

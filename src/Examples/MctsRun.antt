-- ===== src/Examples/MctsRun.antt =====
-- The MCTS solver at the end of a game: Black has moved to the last node and wins.
use proof_cost_network.Base.{
  ℕ, zero, suc, ◌≡◌, refl, true, false, List, [], ◌∷◌, some, ◌⊎◌, inl, inr, arith,
}
use proof_cost_network.Board.Color.{black}
use proof_cost_network.Storage.OpenAddress
use proof_cost_network.Storage.OpenAddress.Laws as Oa
use proof_cost_network.Solver.TreeNode.{TreeNode, reset}
use proof_cost_network.Solver.TranspositionTable.{clean_tt_entry}
use proof_cost_network.Solver.Mcts.{Mcts, update}
use proof_cost_network.Solver.Mcts.Status.{Justified, AllJustified}
use proof_cost_network.Solver.Mcts.Laws.{Capacity, update-Justifies}
use proof_cost_network.Examples.Toy.{left_end, toy, numbers}

-- The root, and its only child.
abbrev root_node : TreeNode numbers
unfolding reset
root_node = record (reset numbers (record { color = black; position = 1 })) {
  n_children = 1;
  first_child = some 1;
}

abbrev last_node : TreeNode numbers
unfolding reset
last_node = reset numbers (record { color = black; position = 0 })

abbrev two_nodes : List (TreeNode numbers)
two_nodes = root_node ∷ last_node ∷ []

abbrev at_end : Mcts toy numbers
at_end = record {
  position = left_end;
  nodes = two_nodes;
  tt = OpenAddress.new clean_tt_entry 0 2;
  found_in_tt = false;
}

all_unknown : (p : ℕ) → (p ≡ 1) ⊎ Justified toy numbers at_end.nodes p
unfolding root_node last_node reset
all_unknown zero = inr (record { of_loss = λ h. cc; of_win = λ h. cc })
all_unknown (suc zero) = inl refl
all_unknown (suc (suc p)) = inr (record { of_loss = λ h. cc; of_win = λ h. cc })

room_for_path : Capacity toy numbers 2 at_end
unfolding OpenAddress.new
room_for_path = (Oa.new-IsValid clean_tt_entry 0 2, omega arith)

update-Justifies_example :
    (u : Mcts toy numbers) × (update toy numbers true (1 ∷ 0 ∷ []) at_end ≡ some u)
    × AllJustified toy numbers (λ q. q ≡ 1) u.nodes
unfolding root_node last_node reset
update-Justifies_example =
    update-Justifies toy numbers true (λ q. q ≡ 1) 1 (0 ∷ []) at_end room_for_path
      ((1, refl, omega arith, omega arith), refl, (λ h. h), tt)
      (λ h. elim h [ inl e ↦ absurd (omega (arith, e)) | inr n ↦ n ]) refl refl (λ h. cc)
      all_unknown

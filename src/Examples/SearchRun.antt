-- ===== src/Examples/SearchRun.antt =====
-- The tree search at a root whose two moves are expanded: the choice of a child in the small game, and
-- a round at a position of tic-tac-toe.
use proof_cost_network.Base.{
  ℕ, zero, suc, ◌+◌, ◌<◌, ◌≤◌, ◌≡◌, refl, true, false, List, [], ◌∷◌, length, some, arith, ltb,
}
use proof_cost_network.Board.Color
use proof_cost_network.Board.Color.{black, white}
use proof_cost_network.Board.Move.{Move}
use proof_cost_network.Solver.Double.{Double, IsOrdered}
use proof_cost_network.Solver.TreeNode.{TreeNode, reset}
use proof_cost_network.Solver.BaseMcts.Values.{
  Settings, Functions, calculate_move_score, calculate_init_q_value, get_sim_count,
}
use proof_cost_network.Solver.BaseMcts.{BaseMcts, round, selection, select_child}
use proof_cost_network.Solver.BaseMcts.Selection.{child_score, select_child-IsBest}
use proof_cost_network.Solver.BaseMcts.Round.{Counts, Sound, Finite, round-Restores}
use proof_cost_network.Games.TieTacToe
use proof_cost_network.Games.TieTacToe.AsGame.{tie_tac_toe, num_moves, num_moves-play}
use proof_cost_network.Examples.Cells.{black_to_move, black-running}
use proof_cost_network.Examples.Toy.{root, toy, numbers, numbers-IsOrdered}

-- The least number is 0 here, and no score is.
abbrev reals : Double
reals = record numbers { neg = λ a. 0 }

reals-IsOrdered : IsOrdered reals
reals-IsOrdered = record {
  ltb_irrefl = numbers-IsOrdered.ltb_irrefl;
  ltb_trans = numbers-IsOrdered.ltb_trans;
  ltb_total = numbers-IsOrdered.ltb_total;
}

abbrev functions : Functions reals
functions = record { sqrt = λ a. a + 1; log = λ a. a; half = 0 }

abbrev settings : Settings reals
settings = record {
  use_net = false;
  use_noise_at_root = false;
  net_value_winloss = true;
  proof_color = Color.none;
  puct_bias = 0;
  q_weight = 1;
  branching_factor = 0;
  simulation_count = 4;
  select_by_count_proportion = false;
  noise_epsilon = 0;
}

abbrev to_left : TreeNode reals
unfolding reset
to_left = reset reals (record { color = white; position = 0 })

abbrev to_right : TreeNode reals
unfolding reset
to_right = reset reals (record { color = white; position = 1 })

abbrev root_node : TreeNode reals
unfolding reset
root_node = record (reset reals (record { color = black; position = 0 })) {
  n_children = 2;
  first_child = some 1;
}

abbrev search : BaseMcts toy reals
search = record {
  simulation = 1;
  node_used_index = 3;
  backup_move = 1;
  position = root;
  nodes = root_node ∷ to_left ∷ to_right ∷ [];
  value_map = [];
  selected = [];
  value = 0;
  probability = [];
}

finite : Finite toy reals reals-IsOrdered functions settings search
unfolding root_node to_left to_right reset calculate_move_score calculate_init_q_value get_sim_count
finite zero zero h = refl
finite zero (suc zero) h = refl
finite zero (suc (suc k)) h = absurd (omega (arith, h))
finite (suc zero) k h = absurd (omega (arith, h))
finite (suc (suc zero)) k h = absurd (omega (arith, h))
finite (suc (suc (suc i))) k h = absurd (omega (arith, h))

select_child-IsBest_example :
    (k : ℕ) × (select_child toy reals functions settings search 0 ≡ some k)
    × (k < 2)
    × ((j : ℕ)
        → j < 2
        → ltb
            (child_score toy reals reals-IsOrdered functions settings search 0 k)
            (child_score toy reals reals-IsOrdered functions settings search 0 j)
          ≡ false)
    × ((j : ℕ)
        → j < k
        → ltb
            (child_score toy reals reals-IsOrdered functions settings search 0 j)
            (child_score toy reals reals-IsOrdered functions settings search 0 k)
          ≡ true)
unfolding root_node reset
select_child-IsBest_example =
    select_child-IsBest toy reals reals-IsOrdered functions settings search 0 1 (omega arith)
      (finite 0 1 (omega arith))

-- The same tree over a position of tic-tac-toe: Black plays 2 or 8.
abbrev to_two : TreeNode reals
unfolding reset
to_two = reset reals (record { color = black; position = 2 })

abbrev to_eight : TreeNode reals
unfolding reset
to_eight = reset reals (record { color = black; position = 8 })

abbrev cells : BaseMcts tie_tac_toe reals
cells = record {
  simulation = 1;
  node_used_index = 3;
  backup_move = 0;
  position = black_to_move;
  nodes = root_node ∷ to_two ∷ to_eight ∷ [];
  value_map = [];
  selected = [];
  value = 0;
  probability = [];
}

counted : Counts tie_tac_toe num_moves
counted g m go ok mover = num_moves-play g m

abbrev evaluate : BaseMcts tie_tac_toe reals → ℕ × List (Move × ℕ)
evaluate s = (1, (record { color = black; position = 0 }, 1) ∷ [])

sound : Sound tie_tac_toe reals 1 cells.nodes 0 black_to_move
unfolding root_node to_two to_eight reset TieTacToe.is_legal_move
sound zero h = (black-running, refl, refl, refl)
sound (suc zero) h = (black-running, refl, refl, refl)
sound (suc (suc k)) h = absurd (omega (arith, h))

cells-Finite : Finite tie_tac_toe reals reals-IsOrdered functions settings cells
unfolding root_node to_two to_eight reset calculate_move_score calculate_init_q_value get_sim_count
cells-Finite zero zero h = refl
cells-Finite zero (suc zero) h = refl
cells-Finite zero (suc (suc k)) h = absurd (omega (arith, h))
cells-Finite (suc zero) k h = absurd (omega (arith, h))
cells-Finite (suc (suc zero)) k h = absurd (omega (arith, h))
cells-Finite (suc (suc (suc i))) k h = absurd (omega (arith, h))

round-Restores_example :
    (t : BaseMcts tie_tac_toe reals) × (leaf : BaseMcts tie_tac_toe reals) × (selection tie_tac_toe
        reals functions settings cells
      ≡ some leaf)
    × (round tie_tac_toe reals functions settings num_moves evaluate (λ i n. []) cells ≡ some t)
    × (t.position ≡ black_to_move)
    × (t.simulation ≡ 2)
    × (t.node_used_index ≤ 3 + length (evaluate leaf).1)
round-Restores_example =
    round-Restores tie_tac_toe reals reals-IsOrdered functions settings num_moves counted evaluate
      (λ i n. []) 1 cells sound (omega arith) cells-Finite refl

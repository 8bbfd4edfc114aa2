-- ===== src/Examples/DfpnRun.antt =====
-- A run of the depth-first proof-number search on the game of seven positions.
use proof_cost_network.Base.{ap, subst, Bool, true, false, [], map, Option, none, some}
use proof_cost_network.Board.Color
use proof_cost_network.Board.Color.{Color, black, white}
use proof_cost_network.Board.Move.{Move}
use proof_cost_network.Storage.OpenAddress
use proof_cost_network.Solver.Game
use proof_cost_network.Solver.TreeNode
use proof_cost_network.Solver.Dfpn.Numbers
use proof_cost_network.Solver.Dfpn.Entries
use proof_cost_network.Solver.Dfpn.Expand
use proof_cost_network.Solver.Dfpn.Mid
use proof_cost_network.Solver.Game.{Game, Playable, all_moves}
use proof_cost_network.Solver.TreeNode.{TreeNode, reset}
use proof_cost_network.Solver.Dfpn.Numbers.{
  Configure, vanilla_pns, focused_pns, sim_control_tt_node,
}
use proof_cost_network.Solver.Dfpn.Entries.{Environment, TtTable, Solver, clean_entry}
use proof_cost_network.Solver.Dfpn.Expand.{legal_only}
use proof_cost_network.Solver.Dfpn.Mid.{mid, new_root, solve}
use proof_cost_network.Solver.Dfpn.Truth.{KeyIdentifies}
use proof_cost_network.Solver.Dfpn.Expansion.{IsFaithful, legal-AreMoves}
use proof_cost_network.Solver.Dfpn.Semantics.{MoverWins, MoverLoses}
use proof_cost_network.Examples.Toy.{root, toy, numbers, code_inj}

pub ids : KeyIdentifies toy numbers
ids = record {
  same_end = λ g h e. ap toy.is_terminal (code_inj g h e);
  same_moves = λ g h e m p. subst (λ x. Playable toy x m) (code_inj g h e) p;
  same_wins = λ g h e w. subst (λ x. MoverWins toy x) (code_inj g h e) w;
  same_loses = λ g h e w. subst (λ x. MoverLoses toy x) (code_inj g h e) w;
}

abbrev pub cfg : Configure numbers
cfg = record {
  pns_mode = vanilla_pns;
  pns_enable_weak_pns = false;
  pns_enable_1_plus_epsilon = false;
  pns_epsilon_value = 0;
  pns_focused_widening_factor = 1;
  pns_focused_children_base = 1;
  pns_num_expansion = 100;
  sim_control = sim_control_tt_node;
  time_limit = 0;
  net_value_space_complexity = false;
  net_num_output_v = 1;
  aot_proof_color = Color.none;
}

-- The network names the legal moves, each with probability 0.
abbrev silent : Environment toy numbers
silent = record {
  shuffle = λ n ms. ms;
  get_probability = λ g. [];
  get_value = λ g. 0;
  get_color_value = λ g c. 0;
  elapsed_time = λ n. 0;
}

abbrev pub env : Environment toy numbers
env = record silent {
  get_probability =
      λ g. map (λ m. (m, 0)) (legal_only toy numbers cfg silent white g (all_moves toy g));
}

pub faithful : IsFaithful toy numbers cfg env white
faithful = record {
  shuffled = λ n ms m. (λ h. h, λ h. h);
  network = λ g running. legal-AreMoves toy numbers cfg silent white g;
}

abbrev pub start : Solver toy numbers
unfolding OpenAddress.new
start = record {
  position = root;
  table = OpenAddress.new (clean_entry toy numbers) 0 4;
  n_mid = 0;
  readings = 0;
}

abbrev pub last_move : Move
last_move = record { color = black; position = 0 }

abbrev answer : Option (TreeNode numbers × Solver toy numbers)
answer = solve toy numbers cfg env white 20 last_move start

abbrev given {ℓ} : {A : Type ℓ} → Option A → Bool
given none = false
given (some a) = true

abbrev or_else {ℓ} : {A : Type ℓ} → A → Option A → A
or_else d none = d
or_else d (some a) = a

abbrev result : TreeNode numbers × Solver toy numbers
result = or_else (reset numbers last_move, start) answer

abbrev root_node : TreeNode numbers
unfolding new_root
root_node = new_root toy numbers cfg env white root

abbrev search : Option (TreeNode numbers × Solver toy numbers)
search = mid toy numbers cfg env white 20 root_node 1000 1000 start

abbrev searched : TreeNode numbers × Solver toy numbers
searched = or_else (root_node, start) search

-- ===== src/Solver/BaseMcts.antt =====
-- MiniZero/BaseMCTS.h and MiniZero/BaseMCTS.cpp: the rounds of the Monte Carlo tree search. The nodes
-- stand in an array, and a pointer to a node is its index. What the subclass evaluates, the number of
-- moves that a game keeps, and the random numbers are parameters.
pub mod Values
pub mod Selection
pub mod Round
use package.proof_cost_network.Base.{
  ℕ, zero, suc, ◌+◌, ◌-◌, ◌^◌, ◌==◌, Bool, true, false, not, ◌&&◌, List, [], ◌∷◌, ◌++◌, length,
  Option, none, some, ◌>>=◌, if◌then◌else◌, ltb, leb, get_or, set,
}
use package.proof_cost_network.Board.Color
use package.proof_cost_network.Board.Color.{Color, against_color}
use package.proof_cost_network.Board.Move.{Move}
use package.proof_cost_network.Solver.Double.{Double}
use package.proof_cost_network.Solver.Game.{Game}
use package.proof_cost_network.Solver.StatisticData
use package.proof_cost_network.Solver.TreeNode.{TreeNode, reset, has_children}
use Values.{
  Settings, Functions, ValueMap, get_sim_count, update_value_map, calculate_init_q_value,
  calculate_move_score,
}

-- `float fBestScore = -DBL_MAX`.
abbrev pub least_score : (double : Double) → double.D
least_score double = double.to_float (double.neg double.dbl_max)

module _ (game : Game) (double : Double) where
  open game use {Position, max_num_legal_action, get_turn_color, is_terminal, undo, play}
  open double use {D}

  -- `selected` is the path of the selected nodes, the last one first.
  pub record BaseMcts : Type 0 where
    pub simulation : ℕ
    pub node_used_index : ℕ
    pub backup_move : ℕ
    pub position : Position
    pub nodes : List (TreeNode double)
    pub value_map : ValueMap double
    pub selected : List ℕ
    pub value : D
    pub probability : List (Move × D)

  abbrev pub no_node : TreeNode double
  no_node = reset double (record { color = Color.none; position = 0 })

  abbrev pub node_at : List (TreeNode double) → ℕ → TreeNode double
  node_at nodes i = get_or nodes i no_node

  -- The `n` nodes from `first` on.
  abbrev pub nodes_from : List (TreeNode double) → ℕ → ℕ → List (TreeNode double)
  nodes_from nodes first zero = []
  nodes_from nodes first (suc n) = node_at nodes first ∷ nodes_from nodes (first + 1) n

  -- Where the children of a node start; a null pointer is never followed, as there are none then.
  abbrev pub first_of : TreeNode double → ℕ
  first_of n = elim n.first_child [ none ↦ 0 | some first ↦ first ]

  abbrev pub children_of : List (TreeNode double) → ℕ → List (TreeNode double)
  children_of nodes i = nodes_from nodes (first_of (node_at nodes i)) (node_at nodes i).n_children

  -- The move before the root has the position -1, here as unsigned.
  unfoldable pub new_tree : BaseMcts → BaseMcts
  unfolding against_color
  new_tree s =
      let before : Move = record {
        color = against_color (get_turn_color s.position);
        position = 2 ^ 32 - 1;
      } in
      record s {
        simulation = 0;
        node_used_index = 1;
        backup_move = 2 ^ 32 - 1;
        nodes = set s.nodes 0 (reset double before);
        value_map = [];
        selected = [];
      }

  abbrev pub root_turn : BaseMcts → Color
  root_turn s = against_color (node_at s.nodes 0).move.color

  module _ (num_moves : Position → ℕ) where
    unfoldable pub backup_game : BaseMcts → BaseMcts
    backup_game s = record s { backup_move = num_moves s.position }

    roll_back_loop : ℕ → BaseMcts → BaseMcts
    roll_back_loop zero s = s
    roll_back_loop (suc fuel) s = elim (ltb s.backup_move (num_moves s.position)) [
      | true ↦ roll_back_loop fuel (record s { position = undo s.position })
      | false ↦ s
    ]

    -- Every round of the loop undoes a move.
    unfoldable pub rollback_game : BaseMcts → BaseMcts
    unfolding roll_back_loop
    rollback_game s = roll_back_loop (num_moves s.position) s

  module _ (f : Functions double) (cfg : Settings double) where
    -- The loop over the children: the best score so far, and the child that has it. A score is passed
    -- over if it is not above the best one, which is the test of the source on numbers that are no NaN.
    unfoldable pub best_loop :
        Color → ValueMap double → ℕ → D → ℕ → List (TreeNode double) → D → Option ℕ → Option ℕ
    unfolding calculate_move_score
    best_loop turn values sim init i [] best_score best = best
    best_loop turn values sim init i (n ∷ children) best_score best =
        let score = calculate_move_score double f cfg turn values sim init n in
        elim (double.ltb best_score score) [
          | false ↦ best_loop turn values sim init (i + 1) children best_score best
          | true ↦ best_loop turn values sim init (i + 1) children score (some i)
        ]

    -- The index of the child among the children of the node.
    unfoldable pub select_child : BaseMcts → ℕ → Option ℕ
    unfolding best_loop calculate_init_q_value get_sim_count against_color
    select_child s i =
        let children = children_of s.nodes i in
        let init = calculate_init_q_value double f cfg (root_turn s) s.value_map children in
        best_loop (root_turn s) s.value_map (get_sim_count double (node_at s.nodes i)) init 0
          children (least_score double) none

    -- A node without a best child is a null pointer that is followed.
    unfoldable pub selection_loop : ℕ → ℕ → BaseMcts → Option BaseMcts
    unfolding has_children select_child
    selection_loop zero i s = none
    selection_loop (suc fuel) i s = elim (has_children double (node_at s.nodes i)) [
      | false ↦ some s
      | true ↦ select_child s i >>= λ k.
          let child = first_of (node_at s.nodes i) + k in
          selection_loop fuel child (record s {
            position = play (node_at s.nodes child).move s.position;
            selected = child ∷ s.selected;
          })
    ]

    -- A path meets no node twice.
    unfoldable pub selection : BaseMcts → Option BaseMcts
    unfolding selection_loop
    selection s = selection_loop (s.node_used_index + 1) 0 (record s { selected = 0 ∷ [] })

    -- The policy goes to the new nodes, from `i` on.
    unfoldable pub expand_loop :
        ℕ → List (Move × D) → List (TreeNode double) → List (TreeNode double)
    expand_loop i [] nodes = nodes
    expand_loop i ((m, p) ∷ rest) nodes =
        expand_loop (i + 1) rest
          (set nodes i (record (reset double m) { probability = p; probability_with_noise = p }))

    unfoldable pub noise_loop : ℕ → List D → List (TreeNode double) → List (TreeNode double)
    noise_loop i [] nodes = nodes
    noise_loop i (noise ∷ rest) nodes =
        let n = node_at nodes i in
        let mixed =
          double.add (double.mul (double.sub double.one cfg.noise_epsilon) n.probability_with_noise)
            (double.mul cfg.noise_epsilon noise) in
        noise_loop (i + 1) rest (set nodes i (record n { probability_with_noise = mixed }))

    abbrev pub branching : ℕ → ℕ → TreeNode double → TreeNode double
    branching kind n node =
        if kind == 0
        then record node { n_branching_factor = max_num_legal_action }
        else if kind == 1
        then record node { n_branching_factor = n }
        else node

    -- `noise` is the drawn Dirichlet noise of the given size.
    unfoldable pub expansion : (ℕ → List D) → BaseMcts → BaseMcts
    unfolding expand_loop noise_loop
    expansion noise s = elim s.selected [
      | [] ↦ s
      | parent ∷ _ ↦
          if is_terminal s.position
          then s
          else (let first = s.node_used_index in
              let n = length s.probability in
              let linked =
                set s.nodes parent
                  (record (node_at s.nodes parent) { first_child = some first; n_children = n }) in
              let filled = expand_loop first s.probability linked in
              let branched =
                set filled parent (branching cfg.branching_factor n (node_at filled parent)) in
              record s {
                node_used_index = first + n;
                nodes =
                    if cfg.use_noise_at_root && parent == 0
                    then noise_loop first (noise n) branched
                    else branched;
              })
    ]

    unfoldable pub update_by_win_lose : ℕ → D → BaseMcts → BaseMcts
    unfolding StatisticData.add
    update_by_win_lose i value s =
        let n = node_at s.nodes i in
        record s {
          nodes =
              set s.nodes i
                (record n { uct_data = StatisticData.add double value double.one n.uct_data });
        }

    unfoldable pub update_by_space_complexity : ℕ → D → BaseMcts → BaseMcts
    unfolding update_by_win_lose StatisticData.get_mean update_value_map
    update_by_space_complexity i value s =
        let old = StatisticData.get_mean double (node_at s.nodes i).uct_data in
        let t = update_by_win_lose i value s in
        record t {
          value_map =
              update_value_map double old
                (StatisticData.get_mean double (node_at t.nodes i).uct_data) t.value_map;
        }

    unfoldable pub update_loop : List ℕ → D → BaseMcts → BaseMcts
    unfolding update_by_win_lose update_by_space_complexity
    update_loop [] value s = s
    update_loop (i ∷ path) value s =
        if cfg.net_value_winloss
        then update_loop path (double.neg value) (update_by_win_lose i value s)
        else update_loop path value (update_by_space_complexity i value s)

    unfoldable pub update : BaseMcts → BaseMcts
    unfolding update_loop
    update s = elim s.selected [
      | [] ↦ s
      | leaf ∷ path ↦ update_loop (leaf ∷ path) s.value (record s {
        nodes = set s.nodes leaf (record (node_at s.nodes leaf) { value = s.value });
      })
    ]

    -- The child with the most simulations, or one drawn by their number: `draw` gives the numbers.
    unfoldable pub decide_loop :
        (ℕ → D → D) → ℕ → List (TreeNode double) → ℕ → ℕ → Option ℕ → Option ℕ
    unfolding get_sim_count
    decide_loop draw i [] sum most chosen = chosen
    decide_loop draw i (n ∷ children) sum most chosen =
        let count = get_sim_count double n in
        let skip = decide_loop draw (i + 1) children sum most chosen in
        let total = sum + count in
        let kept = decide_loop draw (i + 1) children total most chosen in
        let drawn = decide_loop draw (i + 1) children total most (some i) in
        let more = decide_loop draw (i + 1) children sum count (some i) in
        if count == 0
        then skip
        else if cfg.select_by_count_proportion
        then (if double.ltb (draw i (double.of_nat total)) (double.of_nat count)
            then drawn
            else kept)
        else if ltb most count
        then more
        else skip

    -- The index of the move's node among the children of the root.
    unfoldable pub decide_mcts_action : (ℕ → D → D) → BaseMcts → Option ℕ
    unfolding decide_loop
    decide_mcts_action draw s = decide_loop draw 0 (children_of s.nodes 0) 0 0 none

    module _ (num_moves : Position → ℕ) (evaluate : BaseMcts → D × List (Move × D))
        (noise : ℕ → ℕ → List D) where
      abbrev pub evaluated : BaseMcts → BaseMcts
      evaluated s = record s { value = (evaluate s).0; probability = (evaluate s).1 }

      -- One round of the loop of `run`.
      unfoldable pub round : BaseMcts → Option BaseMcts
      unfolding selection expansion update rollback_game
      round s = selection s >>= λ t.
          let back =
            rollback_game num_moves (update (expansion (noise s.simulation) (evaluated t))) in
          some (record back { simulation = back.simulation + 1 })

      rounds : ℕ → BaseMcts → Option BaseMcts
      unfolding round
      rounds zero s = some s
      rounds (suc n) s = round s >>= rounds n

      -- `m_game.setTurnColor` is `with_turn`. The result is the move and the search after it.
      unfoldable pub run :
          (Color → Position → Position)
          → (ℕ → D → D)
          → Color
          → Bool
          → BaseMcts
          → Option (Move × BaseMcts)
      unfolding new_tree backup_game rounds decide_mcts_action
      run with_turn draw c with_play s =
          let begun =
            backup_game num_moves (new_tree (record s { position = with_turn c s.position })) in
          rounds cfg.simulation_count begun >>= λ t. decide_mcts_action draw t >>= λ k.
          let m = (node_at t.nodes (first_of (node_at t.nodes 0) + k)).move in
          some (m, if with_play then record t { position = play m t.position } else t)

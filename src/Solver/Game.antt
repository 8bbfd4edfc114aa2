-- ===== src/Solver/Game.antt =====
-- The part of Games/GameBase.h that a solver uses of a game, with the laws that the solvers rely on.
-- `isTerminal` is a question here; that of Games/Go.cpp, which changes the position, is no such one.
use proof_cost_network.Base.{
  ℕ, zero, suc, ◌+◌, ◌≡◌, Bool, true, false, List, [], ◌∷◌, ◌⊎◌, inl, inr, ap,
}
use proof_cost_network.Board.Color.{Color, against_color}
use proof_cost_network.Board.Move.{Move}

pub record Game : Type 1 where
  pub Position : Type 0
  pub max_num_legal_action : ℕ
  pub get_turn_color : Position → Color
  pub is_terminal : Position → Bool
  pub eval : Position → Color
  pub is_legal_move : Position → Move → Bool
  pub play : Move → Position → Position
  pub undo : Position → Position
  pub get_tt_hash_key : Position → ℕ
  -- A legal move of the player in turn is taken back by `undo` while the game runs. `is_legal_move` of a
  -- game looks at no turn, and `undo` gives the turn to the colour of the move it takes back.
  pub undo-play :
      (g : Position) (m : Move)
      → is_terminal g ≡ false
      → is_legal_move g m ≡ true
      → m.color ≡ get_turn_color g
      → undo (play m g) ≡ g
  -- After such a move the opponent is to move.
  pub get_turn_color-play :
      (g : Position) (m : Move)
      → is_terminal g ≡ false
      → is_legal_move g m ≡ true
      → m.color ≡ get_turn_color g
      → get_turn_color (play m g) ≡ against_color m.color

-- Membership by recursion.
infix 40 ◌∈◌
abbrev pub ◌∈◌ : {A : Type 0} → A → List A → Type 0
x ∈ [] = ⊥
x ∈ y ∷ ys = (x ≡ y) ⊎ (x ∈ ys)

-- `for (int i = 0; i < getMaxNumLegalAction(); ++i) { Move move = Move(player, i); …`
unfoldable pub moves_from : Color → ℕ → ℕ → List Move
moves_from c i zero = []
moves_from c i (suc n) = record { color = c; position = i } ∷ moves_from c (i + 1) n

moves_from-color : (c : Color) (i n : ℕ) (m : Move) → m ∈ moves_from c i n → m.color ≡ c
unfolding moves_from
moves_from-color c i zero m at = absurd at
moves_from-color c i (suc n) m (inl e) = ap (λ (x : Move). x.color) e
moves_from-color c i (suc n) m (inr later) = moves_from-color c (i + 1) n m later

module _ (game : Game) where
  open game use {Position, max_num_legal_action, get_turn_color, is_legal_move}

  abbrev pub all_moves : Position → List Move
  all_moves g = moves_from (get_turn_color g) 0 max_num_legal_action

  -- A move that the player may make.
  abbrev pub Playable : Position → Move → Type 0
  Playable g m = (m ∈ all_moves g) × (is_legal_move g m ≡ true)

  pub all_moves-InTurn : (g : Position) (m : Move) → m ∈ all_moves g → m.color ≡ get_turn_color g
  all_moves-InTurn g m at = moves_from-color (get_turn_color g) 0 max_num_legal_action m at

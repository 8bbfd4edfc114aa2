-- ===== src/Games/TieTacToe/AsGame.antt =====
-- Games/TieTacToe.h as the game of a solver: its positions are the games on a board of nine cells.
use mathlib.Core.HLevel.{Σ_prop_path}
use native.Mathlib.Nat.{ℕ_set}
use proof_cost_network.Base.{
  ℕ, zero, suc, ◌+◌, ◌<◌, ◌≡◌, refl, ◌∙◌, ap, Bool, true, false, not, ◌||◌, List, [], ◌∷◌, ◌++◌,
  length, length-set, get_or, get_or-inside, Option-cases, Bool-cases, inl, inr, last_of, arith,
}
use proof_cost_network.Board.Color.{Color, against_color, eqb, eqb→≡, eqb_self}
use proof_cost_network.Board.Move.{Move}
use proof_cost_network.Solver.Game.{Game, moves_from, Playable, ◌∈◌}
use proof_cost_network.Games.TieTacToe
use proof_cost_network.Games.TieTacToe.{TieTacToeGame, has_empty, is_legal_move, play, undo}
use proof_cost_network.Games.TieTacToe.Laws.{undo-play_in_turn}

abbrev pub Nine : TieTacToeGame → Type 0
Nine g = length g.board ≡ 9

abbrev pub Position : Type 0
Position = (g : TieTacToeGame) × Nine g

pub play-Nine : (m : Move) (g : TieTacToeGame) → Nine g → Nine (play m g)
unfolding play
play-Nine m g nine = length-set g.board m.position m.color ∙ nine

pub undo-Nine : (g : TieTacToeGame) → Nine g → Nine (undo g)
unfolding undo
undo-Nine g nine = elim (Option-cases (last_of g.moves)) [
  | inl e ↦ rw (e, undo) nine
  | inr (m, e) ↦ rw (e, undo) (length-set g.board m.position Color.none ∙ nine)
]

-- A legal move is on the board.
pub legal-inside :
    (g : TieTacToeGame) (m : Move)
    → is_legal_move g m ≡ true
    → (TieTacToe.cell g m.position ≡ Color.none) × (m.position < length g.board)
unfolding is_legal_move
legal-inside g m legal =
    let empty = eqb→≡ _ _ legal in
    (empty, get_or-inside g.board m.position Color.color_size Color.none (λ e. cc) empty)

pub turn_color-play : (m : Move) (g : TieTacToeGame) → (play m g).turn_color ≡ against_color m.color
unfolding play
turn_color-play m g = refl

-- The key is that of `GameBase`, which stays 0.
abbrev pub tie_tac_toe : Game
tie_tac_toe = record {
  Position = Position;
  max_num_legal_action = TieTacToe.max_num_legal_action;
  get_turn_color = λ (g, nine). g.turn_color;
  is_terminal = λ (g, nine). TieTacToe.is_terminal g;
  eval = λ (g, nine). TieTacToe.eval g;
  is_legal_move = λ (g, nine) m. is_legal_move g m;
  play = λ m (g, nine). (play m g, play-Nine m g nine);
  undo = λ (g, nine). (undo g, undo-Nine g nine);
  get_tt_hash_key = λ g. 0;
  undo-play = λ (g, nine) m running legal turn.
      let (empty, inside) = legal-inside g m legal in
      Σ_prop_path (λ x. ℕ_set _ _) (undo-play_in_turn m g empty inside turn);
  get_turn_color-play = λ (g, nine) m running legal turn. turn_color-play m g;
}

moves_from-lists :
    (c : Color) (i n p q : ℕ)
    → p < n
    → i + p ≡ q
    → record { color = c; position = q } ∈ moves_from c i n
unfolding moves_from
moves_from-lists c i zero p q h e = absurd (omega (arith, h))
moves_from-lists c i (suc n) zero q h e =
    let same : q ≡ i = omega (arith, e) in inl (λ j. record { color = c; position = same j })
moves_from-lists c i (suc n) (suc p) q h e =
    inr (moves_from-lists c (i + 1) n p q (omega (arith, h)) (omega (arith, e)))

empty_cell :
    (b : List Color)
    → has_empty b ≡ true
    → (p : ℕ) × (p < length b) × (get_or b p Color.color_size ≡ Color.none)
unfolding has_empty
empty_cell [] h = cc
empty_cell (c ∷ b) h = elim (Bool-cases (eqb c Color.none)) [
  | inl here ↦ (0, omega arith, eqb→≡ _ _ here)
  | inr other ↦
      let (p, inside, e) = empty_cell b (rw (other, has_empty) at h) in
      (suc p, omega (arith, inside), e)
]

-- Every running position has a legal move: a game that has not ended has an empty cell.
pub always_moves :
    (g : Position) → tie_tac_toe.is_terminal g ≡ false → (m : Move) × Playable tie_tac_toe g m
unfolding TieTacToe.is_terminal is_legal_move
always_moves (g, nine) running =
    let (p, inside, e) = empty_cell g.board (second _ _ running) in
    let m : Move = record { color = g.turn_color; position = p } in
    (
      m,
      (
        moves_from-lists g.turn_color 0 TieTacToe.max_num_legal_action p p
            (omega (arith, inside, nine)) (omega arith),
        rw (e, eqb_self) refl,
      ),
    )
  where
    second : (a b : Bool) → (a || not b) ≡ false → b ≡ true
    second a b h = ground (arith, h)

abbrev pub num_moves : Position → ℕ
num_moves (g, nine) = length g.moves

-- A move adds itself to the list of moves.
pub num_moves-play :
    (g : Position) (m : Move) → num_moves (tie_tac_toe.play m g) ≡ suc (num_moves g)
unfolding play
num_moves-play (g, nine) m = added g.moves
  where
    added : (ms : List Move) → length (ms ++ m ∷ []) ≡ suc (length ms)
    added [] = refl
    added (x ∷ ms) = ap suc (added ms)

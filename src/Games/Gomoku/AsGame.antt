-- ===== src/Games/Gomoku/AsGame.antt =====
-- Games/Gomoku.h, without the knowledge of threats, as the game of a solver: its positions are the games
-- on a board of 225 cells that have no threat.
use mathlib.Core.HLevel.{Σ_prop_path}
use native.Mathlib.Nat.{ℕ_set}
use proof_cost_network.Base.{
  ℕ, ◌<◌, ◌≡◌, refl, ◌∙◌, ap, Bool, true, false, not, ◌||◌, length, length-set, get_or-inside,
  Option-cases, Bool-cases, inl, inr, last_of, arith, bit_xor, set, ◌++◌, [], ◌∷◌,
}
use proof_cost_network.Base.Xor.{bit_xor_twice}
use proof_cost_network.Board.Color.{Color, against_color, eqb, eqb→≡}
use proof_cost_network.Board.Move.{Move, is_pass}
use proof_cost_network.Solver.Game.{Game}
use proof_cost_network.Games.Gomoku
use proof_cost_network.Games.Gomoku.{
  GomokuGame, board_size, given, is_legal_move, play, undo, update_connection,
}
use proof_cost_network.Games.Gomoku.Undo.{
  update_connection-SameBoard, update_connection-current_threat, undo-play,
}

abbrev pub IsPlain : GomokuGame → Type 0
IsPlain g = (length g.board ≡ 225) × (given g.current_threat ≡ false)

abbrev pub Position : Type 0
Position = (g : GomokuGame) × IsPlain g

pub IsPlain-prop : (g : GomokuGame) → IsProp (IsPlain g)
IsPlain-prop g = hlevel (ℕ_set)

-- A legal move without a threat is on an empty cell of the board.
pub legal-inside :
    (g : GomokuGame) (m : Move)
    → given g.current_threat ≡ false
    → is_legal_move g m ≡ true
    → (Gomoku.cell g m.position ≡ Color.none) × (m.position < length g.board)
unfolding is_legal_move
legal-inside g m plain legal = elim (Option-cases g.current_threat) [
  | inr (t, e) ↦ cc (rw e at plain)
  | inl e ↦
      let empty = eqb→≡ _ _ (rw (e, is_legal_move) at legal) in
      (empty, get_or-inside g.board m.position Color.color_size Color.none (λ x. cc) empty)
]

first : (a b : Bool) → (not a || b) ≡ false → a ≡ true
first a b h = ground (arith, h)

module _ (grid_hash : ℕ → Color → ℕ) where
  abbrev placed : Move → GomokuGame → GomokuGame
  placed m g = record g {
    moves = g.moves ++ m ∷ [];
    board = set g.board m.position m.color;
    turn_color = against_color m.color;
    hash_key = bit_xor g.hash_key (grid_hash m.position m.color);
  }

  pub play-IsPlain : (m : Move) (g : GomokuGame) → IsPlain g → IsPlain (play grid_hash true m g)
  unfolding play
  play-IsPlain m g plain = elim (Bool-cases (is_pass board_size m)) [
    | inl pass ↦ rw (pass, play) plain
    | inr stone ↦
        rw (stone, play)
          (
            ap length (update_connection-SameBoard (placed m g)).board
                ∙ length-set g.board m.position m.color
                ∙ plain.0,
            ap given (update_connection-current_threat (placed m g)) ∙ plain.1,
          )
  ]

  pub undo-IsPlain : (g : GomokuGame) → IsPlain g → IsPlain (undo grid_hash true g)
  unfolding undo
  undo-IsPlain g plain = elim (Option-cases (last_of g.moves)) [
    | inl e ↦ rw (e, undo) plain
    | inr (m, e) ↦ rw (e, undo) (length-set g.board m.position Color.none ∙ plain.0, plain.1)
  ]

  pub turn_color-play :
      (m : Move) (g : GomokuGame) → (play grid_hash true m g).turn_color ≡ against_color m.color
  unfolding play
  turn_color-play m g = elim (Bool-cases (is_pass board_size m)) [
    | inl pass ↦ rw (pass, play) refl
    | inr stone ↦ rw (stone, play) (update_connection-SameBoard (placed m g)).turn_color
  ]

  -- The key comes back too, since a random key is taken twice.
  pub undo-play_plain :
      (m : Move) (g : GomokuGame)
      → IsPlain g
      → Gomoku.is_terminal g ≡ false
      → is_legal_move g m ≡ true
      → m.color ≡ g.turn_color
      → undo grid_hash true (play grid_hash true m g) ≡ g
  unfolding Gomoku.is_terminal Gomoku.eval is_pass
  undo-play_plain m g plain running legal turn =
      let (empty, inside) = legal-inside g m plain.1 legal in
      undo-play grid_hash true m g (stone inside) empty inside turn (open_ _ _ running)
      ∙ (λ i. record g { hash_key = bit_xor_twice g.hash_key (grid_hash m.position m.color) i })
    where
      stone : m.position < length g.board → is_pass board_size m ≡ false
      stone inside = ground (arith, plain.0, inside)

      open_ : (c : Color) (b : Bool) → (not (eqb c Color.none) || b) ≡ false → c ≡ Color.none
      open_ c b h = eqb→≡ _ _ (first (eqb c Color.none) b h)

  abbrev pub gomoku : Game
  gomoku = record {
    Position = Position;
    max_num_legal_action = 225;
    get_turn_color = λ (g, plain). g.turn_color;
    is_terminal = λ (g, plain). Gomoku.is_terminal g;
    eval = λ (g, plain). Gomoku.eval g;
    is_legal_move = λ (g, plain) m. is_legal_move g m;
    play = λ m (g, plain). (play grid_hash true m g, play-IsPlain m g plain);
    undo = λ (g, plain). (undo grid_hash true g, undo-IsPlain g plain);
    get_tt_hash_key = λ (g, plain). g.hash_key;
    undo-play = λ (g, plain) m running legal turn.
        Σ_prop_path IsPlain-prop (undo-play_plain m g plain running legal turn);
    get_turn_color-play = λ (g, plain) m running legal turn. turn_color-play m g;
  }

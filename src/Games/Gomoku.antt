-- ===== src/Games/Gomoku.antt =====
-- Games/Gomoku.h: Gomoku on a board of 15 by 15, with and without the knowledge of threats.
-- The comments of a game, which only its records read, are left out.
pub mod AsGame
pub mod Undo
use package.proof_cost_network.Base.{
  ℕ, zero, suc, ◌+◌, ◌-◌, ◌*◌, ◌/◌, ◌%◌, Bool, true, false, not, ◌&&◌, ◌||◌, bit_xor,
}
use package.proof_cost_network.Base.{
  List, [], ◌∷◌, ◌++◌, Option, none, some, ◌==◌, ltb, leb, if◌then◌else◌, get_or, set, replicate,
  last_of, pop_back,
}
use package.proof_cost_network.Base.Int.{ℤ, pos, negsuc, ◌+ℤ◌, ◌-ℤ◌, neg_ℤ}
use package.proof_cost_network.Board.Color
use package.proof_cost_network.Board.Color.{Color, black, white, eqb, against_color}
use package.proof_cost_network.Board.Move.{Move, is_pass}

-- The int -1 of a threat is `none`.
pub record GomokuGame : Type 0 where
  pub turn_color : Color
  pub hash_key : ℕ
  pub moves : List Move
  pub board : List Color
  pub threat_record : List (Option ℕ)
  pub current_threat : Option ℕ
  pub winner : Color

abbrev pub board_size : ℕ
board_size = 15

unfoldable pub new_game : GomokuGame
new_game = record {
  turn_color = black;
  hash_key = 0;
  moves = [];
  board = replicate (board_size * board_size) Color.none;
  threat_record = [];
  current_threat = none;
  winner = Color.none;
}

-- A cell that is off the board has no colour.
abbrev pub cell : GomokuGame → ℕ → Color
cell g p = get_or g.board p Color.color_size

-- The colour at a row and a column, if they are on the board.
abbrev on_board : ℤ → Bool
on_board (pos n) = ltb n board_size
on_board (negsuc n) = false

abbrev magnitude : ℤ → ℕ
magnitude (pos n) = n
magnitude (negsuc n) = suc n

abbrev pub to_1d_index : ℤ → ℤ → ℕ
to_1d_index i j = magnitude i * board_size + magnitude j

abbrev inside : ℤ → ℤ → Bool
inside i j = on_board i && on_board j

abbrev pub row_of : ℕ → ℤ
row_of p = pos (p / board_size)

abbrev pub column_of : ℕ → ℤ
column_of p = pos (p % board_size)

-- The loops of `updateConnection`: the stones of one colour in a row, `rounds` at most.
unfoldable pub count_run : GomokuGame → Color → ℤ → ℤ → ℕ → ℤ → ℤ → ℕ
count_run g c di dj zero i j = 0
count_run g c di dj (suc rounds) i j =
    let rest = count_run g c di dj rounds (i +ℤ di) (j +ℤ dj) in
    if inside i j && eqb (cell g (to_1d_index i j)) c then suc rest else 0

-- Five stones through the last move in one direction.
unfoldable pub connects : GomokuGame → ℕ → ℤ → ℤ → Bool
unfolding count_run
connects g p di dj =
    let c = cell g p in
    leb 5 (
      count_run g c di dj 5 (row_of p) (column_of p)
      + count_run g c (neg_ℤ di) (neg_ℤ dj) 4 (row_of p -ℤ di) (column_of p -ℤ dj))

unfoldable pub update_connection : GomokuGame → GomokuGame
unfolding connects
update_connection g = elim (last_of g.moves) [
  | none ↦ g
  | some m ↦
      let p = m.position in
      if connects g p (pos 0) (pos 1)
        || connects g p (pos 1) (pos 0)
        || connects g p (pos 1) (pos 1)
        || connects g p (negsuc 0) (pos 1)
      then record g { winner = cell g p }
      else g
]

-- The start of the first segment through the last move: back over cells that are not the opponent's.
unfoldable pub find_start : GomokuGame → Color → ℤ → ℤ → ℕ → ℤ → ℤ → ℤ × ℤ
find_start g opponent di dj zero i j = (i, j)
find_start g opponent di dj (suc rounds) i j =
    let rest = find_start g opponent di dj rounds (i -ℤ di) (j -ℤ dj) in
    if not (inside (i -ℤ di) (j -ℤ dj)) || eqb (cell g (to_1d_index (i -ℤ di) (j -ℤ dj))) opponent
    then (i, j)
    else rest

-- The variables of the segment: its head, its tail, the stones in it and an empty cell of it.
pub record Segment : Type 0 where
  head_row : ℤ
  head_column : ℤ
  tail_row : ℤ
  tail_column : ℤ
  piece_count : ℕ
  empty_id : Option ℕ

unfoldable pub closed : GomokuGame → Color → Segment → Bool
closed g opponent s =
    not (inside s.tail_row s.tail_column)
    || eqb (cell g (to_1d_index s.tail_row s.tail_column)) opponent

-- The tail is counted, as a stone or as the empty cell.
unfoldable pub count_tail : GomokuGame → Color → Segment → Segment
count_tail g c s =
    let p = to_1d_index s.tail_row s.tail_column in
    if eqb (cell g p) c
    then record s { piece_count = s.piece_count + 1 }
    else record s { empty_id = some p }

-- The first four places; `none` is that there is no legal segment.
unfoldable pub first_places : GomokuGame → Color → Color → ℤ → ℤ → ℕ → Segment → Option Segment
unfolding closed count_tail
first_places g c opponent di dj zero s = some s
first_places g c opponent di dj (suc rounds) s =
    let counted = count_tail g c s in
    let rest =
      first_places g c opponent di dj rounds
        (record counted { tail_row = s.tail_row +ℤ di; tail_column = s.tail_column +ℤ dj }) in
    if closed g opponent s then none else rest

unfoldable pub same_cell : Option ℕ → Option ℕ → Bool
same_cell none none = true
same_cell (some a) (some b) = a == b
same_cell _ _ = false

abbrev pub given : Option ℕ → Bool
given none = false
given (some _) = true

-- The segments one after the other. Two threats at different cells win.
unfoldable pub segments : GomokuGame → Color → Color → ℤ → ℤ → ℕ → Segment → GomokuGame
unfolding closed count_tail same_cell
segments g c opponent di dj zero s = g
segments g c opponent di dj (suc rounds) s =
    let counted = count_tail g c s in
    let four = counted.piece_count == 4 in
    let threatened = if four then record g { current_threat = counted.empty_id } else g in
    let head = eqb (cell g (to_1d_index s.head_row s.head_column)) c in
    let rest = segments threatened c opponent di dj rounds (record {
      head_row = s.head_row +ℤ di;
      head_column = s.head_column +ℤ dj;
      tail_row = s.tail_row +ℤ di;
      tail_column = s.tail_column +ℤ dj;
      piece_count = if head then counted.piece_count - 1 else counted.piece_count;
      empty_id = counted.empty_id;
    }) in
    if closed g opponent s
    then g
    else if four && given g.current_threat && not (same_cell g.current_threat counted.empty_id)
    then record g { winner = c }
    else rest

-- The line through one stone.
unfoldable pub line_from : ℤ → ℤ → ℕ → GomokuGame → GomokuGame
unfolding find_start first_places segments
line_from di dj p g =
    let c = cell g p in
    let opponent = if eqb c black then white else black in
    let start = find_start g opponent di dj 4 (row_of p) (column_of p) in
    let first = first_places g c opponent di dj 4 (record {
      head_row = start.0;
      head_column = start.1;
      tail_row = start.0;
      tail_column = start.1;
      piece_count = 0;
      empty_id = none;
    }) in
    elim first [ none ↦ g | some s ↦ segments g c opponent di dj 5 s ]

unfoldable pub update_line_threat : ℤ → ℤ → GomokuGame → GomokuGame
unfolding line_from
update_line_threat di dj g = elim (last_of g.moves) [
  | none ↦ g
  | some m ↦ if not (eqb g.winner Color.none) then g else line_from di dj m.position g
]

unfoldable pub update_threat : GomokuGame → GomokuGame
unfolding update_line_threat
update_threat g = update_line_threat (negsuc 0) (pos 1) (
    update_line_threat (pos 1) (pos 1) (
      update_line_threat (pos 1) (pos 0) (
        update_line_threat (pos 0) (pos 1) (record g {
          threat_record = g.threat_record ++ g.current_threat ∷ [];
          current_threat = none;
        }))))

unfoldable pub undo_threat : GomokuGame → GomokuGame
undo_threat g = record g {
  current_threat = elim (last_of g.threat_record) [ none ↦ none | some t ↦ t ];
  threat_record = pop_back g.threat_record;
  winner = Color.none;
}

-- `grid_hash` is the table of random keys, and `no_knowledge` that GOMOKU_KNOWLEDGE_LEVEL is 0.
module _ (grid_hash : ℕ → Color → ℕ) (no_knowledge : Bool) where
  -- A pass gives the turn, and nothing else.
  unfoldable pub play : Move → GomokuGame → GomokuGame
  play m g =
      let placed = record g {
        moves = g.moves ++ m ∷ [];
        board = set g.board m.position m.color;
        turn_color = against_color m.color;
        hash_key = bit_xor g.hash_key (grid_hash m.position m.color);
      } in
      if is_pass board_size m
      then record g { turn_color = against_color m.color }
      else if no_knowledge
      then update_connection placed
      else update_threat placed

  -- The initial game stays, where the assertion fails.
  unfoldable pub undo : GomokuGame → GomokuGame
  undo g = elim (last_of g.moves) [
    | none ↦ g
    | some m ↦
        let taken = record g {
          board = set g.board m.position Color.none;
          turn_color = m.color;
          hash_key = bit_xor g.hash_key (grid_hash m.position m.color);
          moves = pop_back g.moves;
        } in
        if no_knowledge then record taken { winner = Color.none } else undo_threat taken
  ]

unfoldable pub is_legal_move : GomokuGame → Move → Bool
is_legal_move g m = elim g.current_threat [
  | some t ↦ m.position == t
  | none ↦ eqb (cell g m.position) Color.none
]

unfoldable pub has_empty : List Color → Bool
has_empty [] = false
has_empty (c ∷ cs) = if eqb c Color.none then true else has_empty cs

unfoldable pub eval : GomokuGame → Color
eval g = g.winner

unfoldable pub is_terminal : GomokuGame → Bool
unfolding eval has_empty
is_terminal g = not (eqb (eval g) Color.none) || not (has_empty g.board)

unfoldable pub get_final_score : GomokuGame → List ℕ
unfolding eval
get_final_score g =
    if eqb (eval g) black
    then b'B' ∷ b'+' ∷ b'0' ∷ []
    else if eqb (eval g) white
    then b'W' ∷ b'+' ∷ b'0' ∷ []
    else b'0' ∷ []

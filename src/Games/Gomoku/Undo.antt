-- ===== src/Games/Gomoku/Undo.antt =====
-- `undo` takes back what `play` did.
use proof_cost_network.Base.{
  ℕ, zero, suc, ◌-◌, ◌<◌, ◌≡◌, refl, sym, ◌∙◌, ap, Bool, true, false, not, ◌&&◌, bit_xor, ◌==◌,
  if◌then◌else◌, length, set, set-set_back, inl, inr, Bool-cases, Option-cases,
}
use proof_cost_network.Base.{
  [], ◌∷◌, ◌++◌, Option, none, some, last_of, last_of-append, pop_back, pop_back-append,
}
use proof_cost_network.Base.Int.{ℤ, pos, negsuc, ◌+ℤ◌}
use proof_cost_network.Board.Color.{Color, black, white, eqb, against_color}
use proof_cost_network.Board.Move.{Move, is_pass}
use proof_cost_network.Games.Gomoku.{
  GomokuGame, board_size, cell, to_1d_index, count_tail, given, same_cell, Segment, segments,
  closed, first_places, find_start, line_from, row_of, column_of, update_connection,
  update_line_threat, update_threat, undo_threat, play, undo,
}

-- The searches for threats and for five in a row change only the threat and the winner.
pub record SameBoard (g h : GomokuGame) : Type 0 where
  pub turn_color : g.turn_color ≡ h.turn_color
  pub hash_key : g.hash_key ≡ h.hash_key
  pub moves : g.moves ≡ h.moves
  pub board : g.board ≡ h.board
  pub threat_record : g.threat_record ≡ h.threat_record

SameBoard-self : (g : GomokuGame) → SameBoard g g
SameBoard-self g = record {
  turn_color = refl;
  hash_key = refl;
  moves = refl;
  board = refl;
  threat_record = refl;
}

SameBoard-trans : {f g h : GomokuGame} → SameBoard f g → SameBoard g h → SameBoard f h
SameBoard-trans p q = record {
  turn_color = p.turn_color ∙ q.turn_color;
  hash_key = p.hash_key ∙ q.hash_key;
  moves = p.moves ∙ q.moves;
  board = p.board ∙ q.board;
  threat_record = p.threat_record ∙ q.threat_record;
}

SameBoard-if :
    (b : Bool) {f g h : GomokuGame}
    → SameBoard f h
    → SameBoard g h
    → SameBoard (if b then f else g) h
SameBoard-if true p q = p
SameBoard-if false p q = q

segments-SameBoard :
    (g : GomokuGame) (c opponent : Color) (di dj : ℤ) (rounds : ℕ) (s : Segment)
    → SameBoard (segments g c opponent di dj rounds s) g
unfolding segments
segments-SameBoard g c opponent di dj zero s = SameBoard-self g
segments-SameBoard g c opponent di dj (suc rounds) s =
    let counted = count_tail g c s in
    let four = counted.piece_count == 4 in
    let head = eqb (cell g (to_1d_index s.head_row s.head_column)) c in
    let threatened : GomokuGame =
      if four then record g { current_threat = counted.empty_id } else g in
    let next : Segment = record {
      head_row = s.head_row +ℤ di;
      head_column = s.head_column +ℤ dj;
      tail_row = s.tail_row +ℤ di;
      tail_column = s.tail_column +ℤ dj;
      piece_count = if head then counted.piece_count - 1 else counted.piece_count;
      empty_id = counted.empty_id;
    } in
    SameBoard-if (closed g opponent s) (SameBoard-self g) (
      SameBoard-if
        (four && given g.current_threat && not (same_cell g.current_threat counted.empty_id))
        {f = record g { winner = c }}
        (record {
          turn_color = refl;
          hash_key = refl;
          moves = refl;
          board = refl;
          threat_record = refl;
        })
        (SameBoard-trans (segments-SameBoard threatened c opponent di dj rounds next) (
          SameBoard-if four {f = record g { current_threat = counted.empty_id }}
            (record {
              turn_color = refl;
              hash_key = refl;
              moves = refl;
              board = refl;
              threat_record = refl;
            })
            (SameBoard-self g))))

line_from-SameBoard : (di dj : ℤ) (p : ℕ) (g : GomokuGame) → SameBoard (line_from di dj p g) g
unfolding line_from
line_from-SameBoard di dj p g =
    let opponent = if eqb (cell g p) black then white else black in
    let start = find_start g opponent di dj 4 (row_of p) (column_of p) in
    from_first (cell g p) opponent (
      first_places g (cell g p) opponent di dj 4 (record {
        head_row = start.0;
        head_column = start.1;
        tail_row = start.0;
        tail_column = start.1;
        piece_count = 0;
        empty_id = none;
      }))
  where
    from_first :
        (c opponent : Color) (first : Option Segment)
        → SameBoard
            (elim first as (λ x. GomokuGame) [
              | none ↦ g
              | some s ↦ segments g c opponent di dj 5 s
            ])
            g
    from_first c opponent none = SameBoard-self g
    from_first c opponent (some s) = segments-SameBoard g c opponent di dj 5 s

update_line_threat-SameBoard :
    (di dj : ℤ) (g : GomokuGame) → SameBoard (update_line_threat di dj g) g
unfolding update_line_threat
update_line_threat-SameBoard di dj g = elim (Option-cases (last_of g.moves)) [
  | inl e ↦ rw (e, update_line_threat) (SameBoard-self g)
  | inr (m, e) ↦
      rw (e, update_line_threat)
        (SameBoard-if (not (eqb g.winner Color.none)) (SameBoard-self g)
          (line_from-SameBoard di dj m.position g))
]

pub update_connection-SameBoard : (g : GomokuGame) → SameBoard (update_connection g) g
unfolding update_connection
update_connection-SameBoard g = elim (Option-cases (last_of g.moves)) [
  | inl e ↦ rw (e, update_connection) (SameBoard-self g)
  | inr (m, e) ↦
      rw (e, update_connection)
        (SameBoard-if _ {f = record g { winner = cell g m.position }}
          (record {
            turn_color = refl;
            hash_key = refl;
            moves = refl;
            board = refl;
            threat_record = refl;
          })
          (SameBoard-self g))
]

update_threat-SameBoard :
    (g : GomokuGame)
    → SameBoard (update_threat g) (record g {
      threat_record = g.threat_record ++ g.current_threat ∷ [];
      current_threat = none;
    })
unfolding update_threat
update_threat-SameBoard g = SameBoard-trans (update_line_threat-SameBoard (negsuc 0) (pos 1) _) (
    SameBoard-trans (update_line_threat-SameBoard (pos 1) (pos 1) _) (
      SameBoard-trans (update_line_threat-SameBoard (pos 1) (pos 0) _)
        (update_line_threat-SameBoard (pos 0) (pos 1) _)))

pub update_connection-current_threat :
    (g : GomokuGame) → (update_connection g).current_threat ≡ g.current_threat
unfolding update_connection
update_connection-current_threat g = elim (Option-cases (last_of g.moves)) [
  | inl e ↦ rw (e, update_connection) refl
  | inr (m, e) ↦ rw (e, update_connection) (kept _ (cell g m.position))
]
  where
    kept :
        (b : Bool) (c : Color)
        → (if b then record g { winner = c } else g).current_threat ≡ g.current_threat
    kept true c = refl
    kept false c = refl

-- Playing a stone on an empty cell in the player's turn, while nobody has won, and taking it back
-- gives the game back, at either level of knowledge: the board, the moves, the turn, the threat and
-- the record of threats, and the winner; the key is changed by the same random key twice.
pub undo-play :
    (grid_hash : ℕ → Color → ℕ) (no_knowledge : Bool) (m : Move) (g : GomokuGame)
    → is_pass board_size m ≡ false
    → cell g m.position ≡ Color.none
    → m.position < length g.board
    → m.color ≡ g.turn_color
    → g.winner ≡ Color.none
    → undo grid_hash no_knowledge (play grid_hash no_knowledge m g) ≡ record g {
      hash_key =
          bit_xor
            (bit_xor g.hash_key (grid_hash m.position m.color))
            (grid_hash m.position m.color);
    }
unfolding undo play undo_threat
undo-play grid_hash no_knowledge m g stone empty inside turn open_ =
    elim (Bool-cases no_knowledge) [
      | inl no_threats ↦
          let same = update_connection-SameBoard placed in
          let last : last_of (update_connection placed).moves ≡ some m =
            ap last_of same.moves ∙ last_of-append g.moves m in
          rw (stone, no_threats, play)
            (rw (last, undo)
              (λ i. record {
                turn_color = turn i;
                hash_key = bit_xor (same.hash_key i) key;
                moves = (ap pop_back same.moves ∙ pop_back-append g.moves m) i;
                board = (ap (λ b. set b m.position Color.none) same.board ∙ back_to_board) i;
                threat_record = same.threat_record i;
                current_threat = update_connection-current_threat placed i;
                winner = sym open_ i;
              }))
      | inr threats ↦
          let same = update_threat-SameBoard placed in
          let last : last_of (update_threat placed).moves ≡ some m =
            ap last_of same.moves ∙ last_of-append g.moves m in
          rw (stone, threats, play)
            (rw
              (
                last,
                ap last_of same.threat_record ∙ last_of-append g.threat_record g.current_threat,
                undo,
                undo_threat,
              )
              (λ i. record {
                turn_color = turn i;
                hash_key = bit_xor (same.hash_key i) key;
                moves = (ap pop_back same.moves ∙ pop_back-append g.moves m) i;
                board = (ap (λ b. set b m.position Color.none) same.board ∙ back_to_board) i;
                threat_record =
                    (ap pop_back same.threat_record
                        ∙ pop_back-append g.threat_record g.current_threat)
                      i;
                current_threat = g.current_threat;
                winner = sym open_ i;
              }))
    ]
  where
    key : ℕ
    key = grid_hash m.position m.color

    placed : GomokuGame
    placed = record g {
      moves = g.moves ++ m ∷ [];
      board = set g.board m.position m.color;
      turn_color = against_color m.color;
      hash_key = bit_xor g.hash_key key;
    }

    back_to_board : set (set g.board m.position m.color) m.position Color.none ≡ g.board
    back_to_board = set-set_back g.board m.position m.color Color.none Color.color_size empty inside

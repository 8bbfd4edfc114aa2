-- ===== src/Examples/Toy.antt =====
-- A game of seven positions with every law, whose keys tell its positions apart, and numbers in ℕ in
-- place of floating point.
use proof_cost_network.Base.{
  ℕ, ◌+◌, ◌-◌, ◌*◌, ◌/◌, ◌≡◌, refl, sym, ◌∙◌, ap, Bool, true, false, ◌&&◌, ◌==◌, if◌then◌else◌,
  arith, ltb, leb, min, max,
}
use proof_cost_network.Board.Color
use proof_cost_network.Board.Color.{Color, black, white, eqb, eqb→≡}
use proof_cost_network.Board.Move.{Move}
use proof_cost_network.Solver.Game.{Game}
use proof_cost_network.Solver.Double.{Double, IsOrdered}

-- Black has moved to `root`; White may go left, where Black wins, or right, where White wins.
pub data Toy : Type 0 where
  before root left right left_end right_end other_end : Toy

abbrev turn : Toy → Color
turn before = black
turn root = white
turn left = black
turn right = black
turn left_end = white
turn right_end = white
turn other_end = white

abbrev pub ended : Toy → Bool
ended left_end = true
ended right_end = true
ended other_end = true
ended _ = false

abbrev winner : Toy → Color
winner left_end = black
winner right_end = white
winner other_end = white
winner _ = Color.none

abbrev options : Toy → ℕ
options before = 1
options root = 2
options left = 1
options right = 2
options left_end = 0
options right_end = 0
options other_end = 0

abbrev pub legal : Toy → Move → Bool
legal g m = eqb m.color (turn g) && ltb m.position (options g)

abbrev to : Bool → Toy → Toy
to _ before = root
to true root = left
to false root = right
to _ left = left_end
to true right = right_end
to false right = other_end
to _ left_end = left_end
to _ right_end = right_end
to _ other_end = other_end

abbrev back : Toy → Toy
back before = before
back root = before
back left = root
back right = root
back left_end = left
back right_end = right
back other_end = right

abbrev code : Toy → ℕ
code before = 0
code root = 1
code left = 2
code right = 3
code left_end = 4
code right_end = 5
code other_end = 6

pub undo-play :
    (g : Toy) (m : Move) → ended g ≡ false → legal g m ≡ true → back (to (m.position == 0) g) ≡ g
undo-play before m h l = ground arith
undo-play root m h l = ground arith
undo-play left m h l = ground arith
undo-play right m h l = ground arith
undo-play left_end m h l = cc
undo-play right_end m h l = cc
undo-play other_end m h l = cc

turn-to : (g : Toy) (b : Bool) → ended g ≡ false → turn (to b g) ≡ Color.against_color (turn g)
unfolding Color.against_color
turn-to before b h = refl
turn-to root true h = refl
turn-to root false h = refl
turn-to left b h = refl
turn-to right true h = refl
turn-to right false h = refl
turn-to left_end b h = cc
turn-to right_end b h = cc
turn-to other_end b h = cc

pub turn-play :
    (g : Toy) (m : Move)
    → ended g ≡ false
    → legal g m ≡ true
    → turn (to (m.position == 0) g) ≡ Color.against_color m.color
turn-play g m h l =
    turn-to g (m.position == 0) h ∙ ap Color.against_color (sym (eqb→≡ m.color (turn g) (both l)))
  where
    both : legal g m ≡ true → eqb m.color (turn g) ≡ true
    both l = ground arith

abbrev pub toy : Game
toy = record {
  Position = Toy;
  max_num_legal_action = 2;
  get_turn_color = turn;
  is_terminal = ended;
  eval = winner;
  is_legal_move = legal;
  play = λ m g. to (m.position == 0) g;
  undo = back;
  get_tt_hash_key = code;
  undo-play = λ g m h l _. undo-play g m h l;
  get_turn_color-play = λ g m h l _. turn-play g m h l;
}

abbrev pub numbers : Double
numbers = record {
  D = ℕ;
  dbl_max = 1000;
  to_float = λ a. a;
  zero = 0;
  one = 1;
  add = λ a b. a + b;
  sub = λ a b. a - b;
  mul = λ a b. a * b;
  div = λ a b. a / b;
  neg = λ a. a;
  fmin = min;
  fmax = max;
  ceil = λ a. a;
  ltb = ltb;
  geb = λ a b. leb b a;
  eqb = λ a b. a == b;
  of_nat = λ a. a;
  trunc = λ a. a;
}

pub numbers-IsOrdered : IsOrdered numbers
numbers-IsOrdered = record {
  ltb_irrefl = λ a. ground arith;
  ltb_trans = λ a b c h k. ground arith;
  ltb_total = λ a b c h k. ground arith;
}

-- A position is known by its code.
abbrev decode : ℕ → Toy
decode c =
    if c == 0
    then before
    else if c == 1
    then root
    else if c == 2
    then left
    else if c == 3
    then right
    else if c == 4
    then left_end
    else if c == 5
    then right_end
    else other_end

decode-code : (g : Toy) → decode (code g) ≡ g
decode-code before = refl
decode-code root = refl
decode-code left = refl
decode-code right = refl
decode-code left_end = refl
decode-code right_end = refl
decode-code other_end = refl

pub code_inj : (g h : Toy) → code g ≡ code h → g ≡ h
code_inj g h e = sym (decode-code g) ∙ ap decode e ∙ decode-code h

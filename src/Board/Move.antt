-- ===== src/Board/Move.antt =====
-- Games/GameBase.h, class _Move: a colour and a position, the pass, and the texts of a move. The
-- `int` of a position is its 32-bit pattern.
pub mod Texts
use package.proof_cost_network.Base.{
  ℕ, zero, suc, ◌+◌, ◌-◌, ◌*◌, ◌/◌, ◌%◌, ◌^◌, Bool, true, false, List, [], ◌∷◌, ◌++◌, map, Option,
  none, some, ◌==◌, ◌&&◌, leb, ltb, if◌then◌else◌, get_or,
}
use package.proof_cost_network.Base.Text
use package.proof_cost_network.Base.Text.{Text, to_upper, to_string, atoi}
use package.proof_cost_network.Board.Color.{Color, char_to_color, color_to_char}

pub record Move : Type 0 where
  pub color : Color
  pub position : ℕ

unfoldable pub set_pass : ℕ → Move → Move
set_pass board_size m = record m { position = board_size * board_size }

unfoldable pub is_pass : ℕ → Move → Bool
is_pass board_size m = m.position == board_size * board_size

-- An `int` as its pattern, and the difference of two.
abbrev pub int32 : ℕ → ℕ
int32 n = n % 2 ^ 32

abbrev pub sub32 : ℕ → ℕ → ℕ
sub32 a b = int32 (a + 2 ^ 32 - int32 b)

-- A byte as a `char`, which is signed.
abbrev pub char_value : ℕ → ℕ
char_value c = if ltb c 128 then c else sub32 c 256

-- The cast to `char` of `(boardSize - 1) - y + 'a'`; 255 is -1 there.
abbrev pub row_char : ℕ → ℕ → ℕ
row_char board_size y = (board_size - 1 + 255 * y + b'a') % 256

unfoldable pub to_sgf_string : ℕ → Move → Text
unfolding color_to_char is_pass
to_sgf_string board_size m =
    color_to_char m.color
    ∷ b'['
    ∷ ((if is_pass board_size m
          then []
          else ((m.position % board_size + b'a') % 256)
            ∷ row_char board_size (m.position / board_size)
            ∷ [])
        ++ b']' ∷ [])

abbrev pub pass_text : Text
pass_text = b'P' ∷ b'A' ∷ b'S' ∷ b'S' ∷ []

unfoldable pub to_gtp_string : ℕ → Move → Text
unfolding is_pass to_string
to_gtp_string board_size m =
    let x = m.position % board_size in
    let y = m.position / board_size in
    if is_pass board_size m
    then pass_text
    else ((x + b'A' + (if leb 8 x then 1 else 0)) % 256) ∷ to_string (y + 1)

-- The constructor from a coordinate. `none` is the failed assertion on the letter I, and the
-- exception of `substr` on an empty text.
from_upper_string : Color → Text → ℕ → Option Move
unfolding Text.equal atoi set_pass
from_upper_string c upper board_size =
    let letter = get_or upper 0 0 in
    let y = sub32 (atoi (elim upper [ [] ↦ [] | _ ∷ rest ↦ rest ])) 1 in
    let x = sub32 (char_value letter) b'A' in
    let column = if ltb b'I' letter && ltb letter 128 then sub32 x 1 else x in
    let move : Move = record { color = c; position = int32 (y * board_size + column) } in
    if Text.equal upper pass_text
    then some (set_pass board_size move)
    else if letter == b'I'
    then none
    else elim upper [ [] ↦ none | _ ∷ _ ↦ some move ]

unfoldable pub from_gtp_string : Color → Text → ℕ → Option Move
unfolding to_upper from_upper_string
from_gtp_string c text board_size = from_upper_string c (map to_upper text) board_size

-- The constructor from a key and a value of an SGF node. A key has a first character.
unfoldable pub from_sgf_string : Text → Text → ℕ → Move
unfolding to_upper set_pass char_to_color
from_sgf_string key value board_size =
    let c = char_to_color (get_or key 0 0) in
    let x = sub32 (char_value (to_upper (get_or value 0 0))) b'A' in
    let y = sub32 (board_size - 1) (sub32 (char_value (to_upper (get_or value 1 0))) b'A') in
    elim value [
      | [] ↦ set_pass board_size (record { color = c; position = 0 })
      | _ ∷ _ ↦ record { color = c; position = int32 (y * board_size + x) }
    ]

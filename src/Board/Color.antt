-- ===== src/Board/Color.antt =====
-- Games/Color.h: the colour of a stone, its characters, and the opponent.
use proof_cost_network.Base.{ℕ, ◌≡◌, refl, ◌≢◌, Bool, true, false, ◌==◌, ◌||◌, bit_xor}
use proof_cost_network.Base.{if◌then◌else◌, arith}

-- `color_size` counts the colours before it, and stands for "no such colour".
pub data Color : Type 0 where
  none black white color_size : Color

-- The value of the enumerator.
abbrev pub to_int : Color → ℕ
to_int none = 0
to_int black = 1
to_int white = 2
to_int color_size = 3

-- The cast `(Color)n` of an `int` below four.
abbrev pub of_int : ℕ → Color
of_int n = if n == 0 then none else if n == 1 then black else if n == 2 then white else color_size

unfoldable pub char_to_color : ℕ → Color
char_to_color c =
    if c == b'N'
    then none
    else if c == b'B' || c == b'b'
    then black
    else if c == b'W' || c == b'w'
    then white
    else color_size

unfoldable pub color_to_char : Color → ℕ
color_to_char none = b'N'
color_to_char black = b'B'
color_to_char white = b'W'
color_to_char color_size = b'?'

unfoldable pub against_color : Color → Color
against_color c = of_int (bit_xor (to_int c) (to_int color_size))

abbrev pub eqb : Color → Color → Bool
eqb a b = to_int a == to_int b

pub eqb→≡ : (a b : Color) → eqb a b ≡ true → a ≡ b
eqb→≡ a b h = ground arith

pub eqb→≢ : (a b : Color) → eqb a b ≡ false → a ≢ b
eqb→≢ a b h = ground arith

pub eqb_self : (a : Color) → eqb a a ≡ true
eqb_self none = refl
eqb_self black = refl
eqb_self white = refl
eqb_self color_size = refl

-- The opponent of the opponent is the player, and a player is never the own opponent.
pub against_color-against_color :
    (c : Color) → (against_color (against_color c) ≡ c) × (against_color c ≢ c)
unfolding against_color
against_color-against_color none = (refl, ground arith)
against_color-against_color black = (refl, ground arith)
against_color-against_color white = (refl, ground arith)
against_color-against_color color_size = (refl, ground arith)

-- Reading the character that a colour prints gives the colour back.
pub char_to_color-color_to_char : (c : Color) → char_to_color (color_to_char c) ≡ c
unfolding char_to_color color_to_char
char_to_color-color_to_char none = refl
char_to_color-color_to_char black = refl
char_to_color-color_to_char white = refl
char_to_color-color_to_char color_size = refl

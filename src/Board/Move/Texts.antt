-- ===== src/Board/Move/Texts.antt =====
-- The texts of a move are read back as the move.
use native.Mathlib.Nat.{mod-lt, div-add-mod', div-lt_iff_lt-mul}
use proof_cost_network.Base.{
  ℕ, ◌+◌, ◌-◌, ◌*◌, ◌/◌, ◌%◌, ◌^◌, ◌≤◌, ◌<◌, ◌≡◌, refl, sym, ◌∙◌, ap, false, [], ◌∷◌, ◌++◌, map,
  Option, some, ◌==◌, ◌&&◌, ltb, leb, ==→≡, Bool-cases, arith, inl, inr, if◌then◌else◌,
}
use proof_cost_network.Base.Text
use proof_cost_network.Base.Text.{
  Text, to_upper, to_string, atoi, atoi-to_string, to_string-AllDigits, map-to_upper_digits,
  digits_differ,
}
use proof_cost_network.Board.Color.{Color, color_to_char, char_to_color-color_to_char}
use proof_cost_network.Board.Move.{
  Move, set_pass, is_pass, row_char, int32, sub32, pass_text, to_sgf_string, to_gtp_string,
  char_value, from_gtp_string, from_upper_string, from_sgf_string,
}

-- The row and the column of a position of the board.
row-lt : (n p : ℕ) → p < n * n → (p / n < n) × (p % n < n) × (p / n * n + p % n ≡ p)
row-lt n p h =
    let wide : 0 < n = grind (arith, h) in
    ((div-lt_iff_lt-mul wide).1 h, mod-lt p wide, div-add-mod' p n)

-- The letters of a column and of a row, read back.
column_back : (x : ℕ) → x < 26 → sub32 (char_value (to_upper ((x + b'a') % 256))) b'A' ≡ x
unfolding to_upper
column_back x h = ground (arith, h)

row_back :
    (n y : ℕ)
    → y < n
    → n < 27
    → sub32 (n - 1) (sub32 (char_value (to_upper ((n - 1 + 255 * y + b'a') % 256))) b'A') ≡ y
unfolding to_upper
row_back n y h small =
    let letter : (n - 1 + 255 * y + b'a') % 256 ≡ n - 1 - y + b'a' = omega (arith, h, small) in
    rw letter (ground (arith, h, small))

small-int32 : (n p : ℕ) → n < 27 → p < n * n → int32 p ≡ p
small-int32 n p small h = omega (arith, square n small, h)
  where
    square : (n : ℕ) → n < 27 → n * n < 729
    square n small = grind (arith, small)

-- On a board of at most 26 columns, the text of a move is its colour and a value in brackets, and the
-- constructor from these gives the move back.
pub from_sgf_string-to_sgf_string :
    (board_size : ℕ) (m : Move)
    → board_size < 27
    → m.position ≤ board_size * board_size
    → (value : Text) × (to_sgf_string board_size m
        ≡ color_to_char m.color ∷ b'[' ∷ (value ++ b']' ∷ []))
      × (from_sgf_string (color_to_char m.color ∷ []) value board_size ≡ m)
unfolding to_sgf_string from_sgf_string is_pass set_pass
from_sgf_string-to_sgf_string n m small inside = elim (Bool-cases (m.position == n * n)) [
  | inl pass ↦
      let e = ==→≡ _ _ pass in
      ([], rw pass refl, ground (arith, char_to_color-color_to_char m.color, e))
  | inr other ↦
      let h : m.position < n * n = ground (arith, inside, other) in
      let (row, column, whole) = row-lt n m.position h in
      (
        ((m.position % n + b'a') % 256) ∷ row_char n (m.position / n) ∷ [],
        rw other refl,
        rw (
          column_back (m.position % n) (omega (arith, column, small)),
          row_back n (m.position / n) row small,
          whole,
          small-int32 n m.position small h,
          char_to_color-color_to_char m.color,
        ),
      )
]

-- A letter and a number that are no pass.
gtp_letter : ℕ → ℕ
gtp_letter x = (x + b'A' + (if leb 8 x then 1 else 0)) % 256

gtp_letter_facts :
    (x : ℕ)
    → x < 25
    → (to_upper (gtp_letter x) ≡ gtp_letter x)
      × ((gtp_letter x == b'I') ≡ false)
      × ((if ltb b'I' (gtp_letter x) && ltb (gtp_letter x) 128
            then sub32 (sub32 (char_value (gtp_letter x)) b'A') 1
            else sub32 (char_value (gtp_letter x)) b'A')
          ≡ x)
unfolding gtp_letter to_upper
gtp_letter_facts x h = (ground (arith, h), ground (arith, h), ground (arith, h))

gtp_text_facts :
    (x y : ℕ)
    → x < 25
    → (map to_upper (gtp_letter x ∷ to_string (y + 1)) ≡ gtp_letter x ∷ to_string (y + 1))
      × (Text.equal (gtp_letter x ∷ to_string (y + 1)) pass_text ≡ false)
unfolding Text.equal
gtp_text_facts x y h =
    let digits = to_string-AllDigits (y + 1) in
    (
      ap (λ (c : ℕ). c ∷ map to_upper (to_string (y + 1))) (gtp_letter_facts x h).0
          ∙ ap (λ s. gtp_letter x ∷ s) (map-to_upper_digits (to_string (y + 1)) digits),
      rw (digits_differ (to_string (y + 1)) (b'S' ∷ b'S' ∷ []) b'A' digits refl) (ground arith),
    )

to_gtp_string_pass : (n : ℕ) (m : Move) → m.position ≡ n * n → to_gtp_string n m ≡ pass_text
unfolding to_gtp_string is_pass
to_gtp_string_pass n m e = ground (arith, e)

to_gtp_string_place :
    (n : ℕ) (m : Move)
    → (m.position == n * n) ≡ false
    → to_gtp_string n m ≡ gtp_letter (m.position % n) ∷ to_string (m.position / n + 1)
unfolding to_gtp_string is_pass gtp_letter
to_gtp_string_place n m e = rw e refl

upper_pass : map to_upper pass_text ≡ pass_text
unfolding to_upper
upper_pass = refl

read_upper :
    (c : Color) (n : ℕ) (t : Text) → from_gtp_string c t n ≡ from_upper_string c (map to_upper t) n
unfolding from_gtp_string
read_upper c n t = refl

read_pass :
    (c : Color) (n : ℕ)
    → from_upper_string c pass_text n ≡ some (record { color = c; position = n * n })
unfolding from_upper_string Text.equal set_pass
read_pass c n = refl

read_place :
    (c : Color) (n x y : ℕ)
    → x < 25
    → y < 2 ^ 31
    → from_upper_string c (gtp_letter x ∷ to_string (y + 1)) n
      ≡ some (record { color = c; position = int32 (y * n + x) })
unfolding from_upper_string
read_place c n x y h small =
    let (_, no_i, column) = gtp_letter_facts x h in
    let row : sub32 (atoi (to_string (y + 1))) 1 ≡ y =
      rw (atoi-to_string (y + 1)) (omega (arith, small)) in
    rw ((gtp_text_facts x y h).1, no_i, column, row) refl

-- On a board of at most 25 columns, the GTP text of a move is read back as the move of its colour.
pub from_gtp_string-to_gtp_string :
    (board_size : ℕ) (m : Move)
    → board_size < 26
    → m.position ≤ board_size * board_size
    → from_gtp_string m.color (to_gtp_string board_size m) board_size ≡ some m
from_gtp_string-to_gtp_string n m small inside = elim (Bool-cases (m.position == n * n)) [
  | inl pass ↦
      let e = ==→≡ _ _ pass in
      ap read (to_gtp_string_pass n m e)
      ∙ read_upper m.color n pass_text
      ∙ ap upper_read upper_pass
      ∙ read_pass m.color n
      ∙ ap (λ p. some (at p)) (sym e)
  | inr other ↦
      let h : m.position < n * n = ground (arith, inside, other) in
      let (row, column, whole) = row-lt n m.position h in
      let few : m.position % n < 25 = omega (arith, column, small) in
      ap read (to_gtp_string_place n m other)
      ∙ read_upper m.color n _
      ∙ ap upper_read (gtp_text_facts (m.position % n) (m.position / n) few).0
      ∙ read_place m.color n (m.position % n) (m.position / n) few (omega (arith, row, small))
      ∙ ap (λ p. some (at p)) (ap int32 whole ∙ small-int32 n m.position (omega (arith, small)) h)
]
  where
    read : Text → Option Move
    read t = from_gtp_string m.color t n

    upper_read : Text → Option Move
    upper_read t = from_upper_string m.color t n

    at : ℕ → Move
    at p = record { color = m.color; position = p }

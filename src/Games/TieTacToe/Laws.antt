-- ===== src/Games/TieTacToe/Laws.antt =====
-- Who has won, and taking back a move.
use proof_cost_network.Base.{
  ℕ, ◌<◌, ◌≡◌, ◌≢◌, refl, sym, ◌∙◌, ap, subst, true, false, ◌⊎◌, inl, inr, Bool-cases, Option-cases,
}
use proof_cost_network.Base.{
  List, [], ◌∷◌, none, some, some_inj, none≢some, true≢false, last_of-append, pop_back-append,
  length, set-set_back, if◌then◌else◌,
}
use proof_cost_network.Board.Color.{Color, eqb, eqb→≡, eqb→≢, eqb_self}
use proof_cost_network.Board.Move.{Move}
use proof_cost_network.Solver.Game.{◌∈◌}
use proof_cost_network.Games.TieTacToe.{
  TieTacToeGame, cell, play, undo, is_full_line, full_line, row, column, left_up, left_down,
  rows_and_columns, eval,
}

-- Playing in turn on an empty cell, and taking it back, gives the game back.
pub undo-play_in_turn :
    (m : Move) (g : TieTacToeGame)
    → cell g m.position ≡ Color.none
    → m.position < length g.board
    → m.color ≡ g.turn_color
    → undo (play m g) ≡ g
unfolding undo play
undo-play_in_turn m g empty inside turn =
    rw (last_of-append g.moves m, undo)
      (λ i. record {
        turn_color = turn i;
        moves = pop_back-append g.moves m i;
        board = set-set_back g.board m.position m.color Color.none Color.color_size empty inside i;
      })

-- The eight lines of the board.
abbrev pub lines : List (List ℕ)
lines = row 0 ∷ column 0 ∷ row 1 ∷ column 1 ∷ row 2 ∷ column 2 ∷ left_up ∷ left_down ∷ []

abbrev sides : List (List ℕ)
sides = row 0 ∷ column 0 ∷ row 1 ∷ column 1 ∷ row 2 ∷ column 2 ∷ []

-- All cells of the line have the colour.
abbrev pub IsFull : TieTacToeGame → Color → List ℕ → Type 0
IsFull g c line = (p : ℕ) → p ∈ line → cell g p ≡ c

-- The colour has a line.
abbrev pub HasLine : TieTacToeGame → Color → Type 0
HasLine g c = (line : List ℕ) × (line ∈ lines) × IsFull g c line

is_full_line-IsFull :
    (g : TieTacToeGame) (c : Color) (line : List ℕ) → is_full_line g c line ≡ true → IsFull g c line
unfolding is_full_line
is_full_line-IsFull g c [] h p at = absurd at
is_full_line-IsFull g c (q ∷ line) h p at = elim (Bool-cases (eqb (cell g q) c)) [
  | inl same ↦ elim at [
    | inl e ↦ rw e (eqb→≡ _ _ same)
    | inr later ↦ is_full_line-IsFull g c line (rw (same, is_full_line) at h) p later
  ]
  | inr other ↦ absurd (true≢false (sym h ∙ rw (other, is_full_line) refl))
]

IsFull-is_full_line :
    (g : TieTacToeGame) (c : Color) (line : List ℕ) → IsFull g c line → is_full_line g c line ≡ true
unfolding is_full_line
IsFull-is_full_line g c [] full = refl
IsFull-is_full_line g c (q ∷ line) full =
    rw (full q (inl refl), eqb_self c) (IsFull-is_full_line g c line (λ p at. full p (inr at)))

-- What the test of a row or a column says.
full_line-some :
    (g : TieTacToeGame) (first : ℕ) (line : List ℕ) (c : Color)
    → full_line g first line ≡ some c
    → (c ≢ Color.none) × IsFull g c line
unfolding full_line
full_line-some g first line c h = elim (Bool-cases (eqb (cell g first) Color.none)) [
  | inl empty ↦ absurd (none≢some (rw (empty, full_line) at h))
  | inr stone ↦ elim (Bool-cases (is_full_line g (cell g first) line)) [
    | inr open_ ↦ absurd (none≢some (rw (stone, open_, full_line) at h))
    | inl full ↦
        let same = some_inj (rw (stone, full, full_line) at h) in
        (
          λ e. eqb→≢ _ _ stone (same ∙ e),
          subst (λ x. IsFull g x line) same (is_full_line-IsFull g (cell g first) line full),
        )
  ]
]

full_line-none :
    (g : TieTacToeGame) (first : ℕ) (line : List ℕ) (c : Color)
    → first ∈ line
    → c ≢ Color.none
    → full_line g first line ≡ none
    → ¬ IsFull g c line
unfolding full_line
full_line-none g first line c at coloured h full =
    let same = full first at in
    let tested = IsFull-is_full_line g c line full in
    let some_c : full_line g first line ≡ some c = rw (same, stone, tested, full_line) refl in
    none≢some (sym h ∙ some_c)
  where
    stone : eqb c Color.none ≡ false
    stone = elim (Bool-cases (eqb c Color.none)) [
      | inl e ↦ absurd (coloured (eqb→≡ _ _ e))
      | inr n ↦ n
    ]

-- The colour that has won, or nobody.
pub data Winner (g : TieTacToeGame) : Color → Type 0 where
  winner : (c : Color) → c ≢ Color.none → HasLine g c → Winner g c
  nobody : ((c : Color) → c ≢ Color.none → ¬ HasLine g c) → Winner g Color.none

found :
    (g : TieTacToeGame) (first : ℕ) (line : List ℕ) (c : Color)
    → line ∈ lines
    → full_line g first line ≡ some c
    → Winner g c
found g first line c at h =
    let (coloured, full) = full_line-some g first line c h in winner c coloured (line, at, full)

-- No row and no column is full, and the diagonals are to be tested.
module _ (g : TieTacToeGame)
    (no_side : (c : Color)
      → c ≢ Color.none
      → (line : List ℕ) → line ∈ sides
      → ¬ IsFull g c line) where
  nobody_by :
      ((c : Color) → c ≢ Color.none → ¬ IsFull g c left_up)
      → ((c : Color) → c ≢ Color.none → ¬ IsFull g c left_down)
      → Winner g Color.none
  nobody_by no_up no_down = nobody (λ c coloured (line, at, full). elim (split line at) [
    | inl side ↦ no_side c coloured line side full
    | inr (inl e) ↦ no_up c coloured (subst (λ l. IsFull g c l) e full)
    | inr (inr e) ↦ no_down c coloured (subst (λ l. IsFull g c l) e full)
  ])
    where
      split :
          (line : List ℕ) → line ∈ lines → (line ∈ sides) ⊎ (line ≡ left_up) ⊎ (line ≡ left_down)
      split line (inl e) = inl (inl e)
      split line (inr (inl e)) = inl (inr (inl e))
      split line (inr (inr (inl e))) = inl (inr (inr (inl e)))
      split line (inr (inr (inr (inl e)))) = inl (inr (inr (inr (inl e))))
      split line (inr (inr (inr (inr (inl e))))) = inl (inr (inr (inr (inr (inl e)))))
      split line (inr (inr (inr (inr (inr (inl e)))))) = inl (inr (inr (inr (inr (inr (inl e))))))
      split line (inr (inr (inr (inr (inr (inr (inl e))))))) = inr (inl e)
      split line (inr (inr (inr (inr (inr (inr (inr (inl e)))))))) = inr (inr e)
      split line (inr (inr (inr (inr (inr (inr (inr (inr x)))))))) = absurd x

  -- A diagonal whose test failed is not full.
  untested :
      (first : ℕ) (line : List ℕ)
      → first ∈ line
      → is_full_line g (cell g first) line ≡ false
      → (c : Color) → ¬ IsFull g c line
  untested first line at h c full = true≢false (
      sym (IsFull-is_full_line g c line full)
      ∙ ap (λ x. is_full_line g x line) (sym (full first at))
      ∙ h)

  diagonals : Winner g (
      if is_full_line g (cell g 0) left_up
      then cell g 0
      else if is_full_line g (cell g 2) left_down
      then cell g 2
      else Color.none)
  diagonals = elim (Bool-cases (is_full_line g (cell g 0) left_up)) [
    | inl up ↦ rw up (elim (Bool-cases (eqb (cell g 0) Color.none)) [
      | inr stone ↦
          winner (cell g 0) (eqb→≢ _ _ stone)
            (left_up, inr (inr (inr (inr (inr (inr (inl refl)))))), full_up up)
      | inl empty ↦
          subst (λ x. Winner g x) (sym (eqb→≡ _ _ empty))
            (nobody_by (λ c coloured full. coloured (sym (full 0 (inl refl)) ∙ eqb→≡ _ _ empty))
              (λ c coloured full.
                coloured (
                  sym (full 4 (inr (inl refl))) ∙ full_up up 4 (inr (inl refl)) ∙ eqb→≡ _ _ empty)))
    ])
    | inr not_up ↦ elim (Bool-cases (is_full_line g (cell g 2) left_down)) [
      | inl down ↦
          rw (not_up, down)
            (elim (Bool-cases (eqb (cell g 2) Color.none)) [
              | inr stone ↦ winner (cell g 2) (eqb→≢ _ _ stone) (
                left_down,
                inr (inr (inr (inr (inr (inr (inr (inl refl))))))),
                is_full_line-IsFull g (cell g 2) left_down down,
              )
              | inl empty ↦
                  subst (λ x. Winner g x) (sym (eqb→≡ _ _ empty))
                    (nobody_by (λ c coloured. untested 0 left_up (inl refl) not_up c)
                      (λ c coloured full. coloured (sym (full 2 (inl refl)) ∙ eqb→≡ _ _ empty)))
            ])
      | inr not_down ↦
          rw (not_up, not_down)
            (nobody_by (λ c coloured. untested 0 left_up (inl refl) not_up c)
              (λ c coloured. untested 2 left_down (inl refl) not_down c))
    ]
  ]
    where
      full_up : is_full_line g (cell g 0) left_up ≡ true → IsFull g (cell g 0) left_up
      full_up up = is_full_line-IsFull g (cell g 0) left_up up

-- `eval` says who has won: a colour that has a full row, column or diagonal, or no colour, when no
-- colour has one. The diagonal of empty cells at which it stops early excludes the other diagonal.
pub eval-Winner : (g : TieTacToeGame) → Winner g (eval g)
unfolding eval rows_and_columns
eval-Winner g = elim (Option-cases (full_line g 0 (row 0))) [
  | inr (c, e) ↦ rw (e, eval) (found g 0 (row 0) c (inl refl) e)
  | inl r0 ↦ elim (Option-cases (full_line g 0 (column 0))) [
    | inr (c, e) ↦ rw (r0, e, eval) (found g 0 (column 0) c (inr (inl refl)) e)
    | inl c0 ↦ elim (Option-cases (full_line g 3 (row 1))) [
      | inr (c, e) ↦ rw (r0, c0, e, eval) (found g 3 (row 1) c (inr (inr (inl refl))) e)
      | inl r1 ↦ elim (Option-cases (full_line g 1 (column 1))) [
        | inr (c, e) ↦
            rw (r0, c0, r1, e, eval) (found g 1 (column 1) c (inr (inr (inr (inl refl)))) e)
        | inl c1 ↦ elim (Option-cases (full_line g 6 (row 2))) [
          | inr (c, e) ↦
              rw (r0, c0, r1, c1, e, eval)
                (found g 6 (row 2) c (inr (inr (inr (inr (inl refl))))) e)
          | inl r2 ↦ elim (Option-cases (full_line g 2 (column 2))) [
            | inr (c, e) ↦
                rw (r0, c0, r1, c1, r2, e, eval)
                  (found g 2 (column 2) c (inr (inr (inr (inr (inr (inl refl)))))) e)
            | inl c2 ↦
                rw (r0, c0, r1, c1, r2, c2, eval)
                  (diagonals g (λ c coloured line. no_side r0 c0 r1 c1 r2 c2 line c coloured))
          ]
        ]
      ]
    ]
  ]
]
  where
    no_side :
        full_line g 0 (row 0) ≡ none
        → full_line g 0 (column 0) ≡ none
        → full_line g 3 (row 1) ≡ none
        → full_line g 1 (column 1) ≡ none
        → full_line g 6 (row 2) ≡ none
        → full_line g 2 (column 2) ≡ none
        → (line : List ℕ) (c : Color) → c ≢ Color.none
        → line ∈ sides
        → ¬ IsFull g c line
    no_side r0 c0 r1 c1 r2 c2 line c coloured (inl e) full =
        full_line-none g 0 (row 0) c (inl refl) coloured r0 (subst (λ l. IsFull g c l) e full)
    no_side r0 c0 r1 c1 r2 c2 line c coloured (inr (inl e)) full =
        full_line-none g 0 (column 0) c (inl refl) coloured c0 (subst (λ l. IsFull g c l) e full)
    no_side r0 c0 r1 c1 r2 c2 line c coloured (inr (inr (inl e))) full =
        full_line-none g 3 (row 1) c (inl refl) coloured r1 (subst (λ l. IsFull g c l) e full)
    no_side r0 c0 r1 c1 r2 c2 line c coloured (inr (inr (inr (inl e)))) full =
        full_line-none g 1 (column 1) c (inl refl) coloured c1 (subst (λ l. IsFull g c l) e full)
    no_side r0 c0 r1 c1 r2 c2 line c coloured (inr (inr (inr (inr (inl e))))) full =
        full_line-none g 6 (row 2) c (inl refl) coloured r2 (subst (λ l. IsFull g c l) e full)
    no_side r0 c0 r1 c1 r2 c2 line c coloured (inr (inr (inr (inr (inr (inl e)))))) full =
        full_line-none g 2 (column 2) c (inl refl) coloured c2 (subst (λ l. IsFull g c l) e full)
    no_side r0 c0 r1 c1 r2 c2 line c coloured (inr (inr (inr (inr (inr (inr x)))))) full = absurd x

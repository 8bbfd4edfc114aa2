-- ===== src/Board/Bitboard/Dilation.antt =====
-- `dilation`: a position of the board is in it exactly when it or a neighbour is in the set.
use proof_cost_network.Base.{
  ℕ, zero, suc, ◌+◌, ◌-◌, ◌*◌, ◌%◌, ◌≤◌, ◌<◌, ◌≡◌, ◌≢◌, refl, sym, ◌∙◌, ap, Bool, true, false, not,
  ◌||◌, ◌&&◌, length, ◌==◌, arith, ltb, ltb→lt, ltb→le, ==→≡, ◌⊎◌, inl, inr, Bool-cases, ◌↔◌,
  true≢false,
}
use proof_cost_network.Board.Bitboard.{
  Bitboard, bit_is_on, initialize, dilation, shift_right, shift_left, ◌∪◌, ◌∖◌,
}
use proof_cost_network.Board.Bitboard.Bits.{
  bit_is_on_inside, bit_is_on-union, bit_is_on-difference, bit_is_on-shift_right,
  bit_is_on-shift_left, bit_is_on-shift_left_low, length-union, length-difference,
  length-shift_right, length-shift_left,
}
use proof_cost_network.Board.Bitboard.Edges.{
  length-sides, up-lt, bottom-le, left-column, right-column, column-left, column-right, pass_iff,
}

-- `q` is above, below, right or left of `p` on a board of `width` rows and columns.
pub data Adjacent (width p q : ℕ) : Type 0 where
  below : p + width ≡ q → Adjacent width p q
  above : q + width ≡ p → Adjacent width p q
  right_of : suc p ≡ q → q % width ≢ 0 → Adjacent width p q
  left_of : suc q ≡ p → p % width ≢ 0 → Adjacent width p q

or_cases : (a b : Bool) → (a || b) ≡ true → (a ≡ true) ⊎ (b ≡ true)
or_cases true b h = inl refl
or_cases false b h = inr h

or_left : (a b : Bool) → a ≡ true → (a || b) ≡ true
or_left a b h = ground (arith, h)

or_right : (a b : Bool) → b ≡ true → (a || b) ≡ true
or_right a b h = ground (arith, h)

and_cases : (a b : Bool) → (a && not b) ≡ true → (a ≡ true) × (b ≡ false)
and_cases true true h = cc
and_cases true false h = (refl, refl)
and_cases false b h = cc

and_intro : (a b : Bool) → a ≡ true → b ≡ false → (a && not b) ≡ true
and_intro a b h k = ground (arith, h, k)

not_true : (b : Bool) → ¬ (b ≡ true) → b ≡ false
not_true true h = absurd (h refl)
not_true false h = refl

add-one : (p : ℕ) → suc p ≡ p + 1
add-one p = omega arith

last_row : (width p : ℕ) → width * (width - 1) ≤ p → ¬ (p + width < width * width)
last_row zero p h k = omega (arith, k)
last_row (suc w) p h k = grind (arith, h, k)

-- A board of `width` columns has its positions, and one for the pass.
module _ (width : ℕ) (b : Bitboard) (sized : length b ≡ suc (width * width)) where
  abbrev bits : ℕ
  bits = suc (width * width)

  -- The positions that each shifted set has.
  right_shift_iff :
      (n : ℕ) (side : Bitboard) (q : ℕ)
      → (bit_is_on (shift_right n (b ∖ side)) q ≡ true)
        ↔ ((bit_is_on b (q + n) ≡ true) × (bit_is_on side (q + n) ≡ false))
  right_shift_iff n side q = (
    λ h.
        and_cases _ _
          (sym (bit_is_on-shift_right n (b ∖ side) q ∙ bit_is_on-difference b side (q + n)) ∙ h),
    λ h.
        bit_is_on-shift_right n (b ∖ side) q
        ∙ bit_is_on-difference b side (q + n)
        ∙ and_intro _ _ h.0 h.1,
  )

  left_shift_on :
      (n : ℕ) (side : Bitboard) (p : ℕ)
      → length side ≡ bits
      → p + n < bits
      → bit_is_on b p ≡ true
      → bit_is_on side p ≡ false
      → bit_is_on (shift_left n (b ∖ side)) (p + n) ≡ true
  left_shift_on n side p same inside on clear =
      bit_is_on-shift_left n (b ∖ side) p
        (omega (arith, inside, sized, length-difference b side (sized ∙ sym same)))
      ∙ bit_is_on-difference b side p
      ∙ and_intro _ _ on clear

  left_shift_from :
      (n : ℕ) (side : Bitboard) (q : ℕ)
      → length side ≡ bits
      → bit_is_on (shift_left n (b ∖ side)) q ≡ true
      → (p : ℕ) × (p + n ≡ q) × (bit_is_on b p ≡ true) × (bit_is_on side p ≡ false)
  left_shift_from n side q same h = elim (Bool-cases (ltb q n)) [
    | inl low ↦
        absurd (true≢false (sym h ∙ bit_is_on-shift_left_low n (b ∖ side) q (ltb→lt q n low)))
    | inr high ↦
        let back : q - n + n ≡ q = omega (arith, ltb→le q n high) in
        let shifted : length (shift_left n (b ∖ side)) ≡ length (b ∖ side) =
          length-shift_left n (b ∖ side) in
        let inside : q < length (b ∖ side) =
          rw (← shifted) (bit_is_on_inside (shift_left n (b ∖ side)) q h) in
        let (on, clear) = and_cases _ _ (
          sym (bit_is_on-difference b side (q - n))
          ∙ sym (bit_is_on-shift_left n (b ∖ side) (q - n) (rw back inside))
          ∙ ap (bit_is_on (shift_left n (b ∖ side))) back
          ∙ h) in
        (q - n, back, on, clear)
  ]

  abbrev up_part : Bitboard
  up_part = shift_right width (b ∖ (initialize bits width).up)

  abbrev down_part : Bitboard
  down_part = shift_left width (b ∖ (initialize bits width).bottom)

  abbrev left_part : Bitboard
  left_part = shift_right 1 (b ∖ (initialize bits width).left)

  abbrev right_part : Bitboard
  right_part = shift_left 1 (b ∖ (initialize bits width).right)

  bit_is_on-dilation :
      (q : ℕ)
      → bit_is_on (dilation bits width b) q ≡ (
          (bit_is_on b q
            || bit_is_on up_part q
            || bit_is_on down_part q
            || bit_is_on left_part q
            || bit_is_on right_part q)
          && not (bit_is_on (initialize bits width).pass q))
  unfolding dilation
  bit_is_on-dilation q = rw (
    bit_is_on-difference (b ∪ up_part ∪ down_part ∪ left_part ∪ right_part)
        (initialize bits width).pass q,
    bit_is_on-union (b ∪ up_part ∪ down_part ∪ left_part) right_part q,
    bit_is_on-union (b ∪ up_part ∪ down_part) left_part q,
    bit_is_on-union (b ∪ up_part) down_part q,
    bit_is_on-union b up_part q,
  )

  pub length-dilation : length (dilation bits width b) ≡ bits
  unfolding dilation
  length-dilation =
      let (up, bottom, left, right, pass) = length-sides bits width in
      let u : length up_part ≡ bits =
        length-shift_right width _ ∙ length-difference b _ (sized ∙ sym up) ∙ sized in
      let d : length down_part ≡ bits =
        length-shift_left width _ ∙ length-difference b _ (sized ∙ sym bottom) ∙ sized in
      let l : length left_part ≡ bits =
        length-shift_right 1 _ ∙ length-difference b _ (sized ∙ sym left) ∙ sized in
      let r : length right_part ≡ bits =
        length-shift_left 1 _ ∙ length-difference b _ (sized ∙ sym right) ∙ sized in
      let bu = length-union b up_part (sized ∙ sym u) ∙ sized in
      let bud = length-union (b ∪ up_part) down_part (bu ∙ sym d) ∙ bu in
      let budl = length-union (b ∪ up_part ∪ down_part) left_part (bud ∙ sym l) ∙ bud in
      let all =
        length-union (b ∪ up_part ∪ down_part ∪ left_part) right_part (budl ∙ sym r) ∙ budl in
      length-difference (b ∪ up_part ∪ down_part ∪ left_part ∪ right_part) _ (all ∙ sym pass) ∙ all

  module _ (no_pass : bit_is_on b (width * width) ≡ false) where
    -- A position of the set lies on the board.
    on_board : (p : ℕ) → bit_is_on b p ≡ true → p < width * width
    on_board p on = elim (Bool-cases (p == width * width)) [
      | inl same ↦ absurd (true≢false (sym on ∙ ap (bit_is_on b) (==→≡ p _ same) ∙ no_pass))
      | inr other ↦ ground (arith, bit_is_on_inside b p on, sized, other)
    ]

    abbrev Near : ℕ → Type 0
    Near q = (bit_is_on b q ≡ true) ⊎ ((p : ℕ) × Adjacent width p q × (bit_is_on b p ≡ true))

    dilation_from :
        (q : ℕ) → bit_is_on (dilation bits width b) q ≡ true → (q < width * width) × Near q
    dilation_from q h =
        let (_, bottom, _, right, _) = length-sides bits width in
        let (parts, clear) = and_cases _ _ (sym (bit_is_on-dilation q) ∙ h) in
        let inside : q < bits = rw (← length-dilation) (bit_is_on_inside _ q h) in
        let here : q < width * width = elim (Bool-cases (width * width == q)) [
          | inl same ↦
              absurd
                (true≢false (sym ((pass_iff bits width q (omega arith)).1 (==→≡ _ q same)) ∙ clear))
          | inr other ↦ ground (arith, inside, other)
        ] in
        let near : Near q = elim (or_cases _ _ parts) [
          | inr r ↦
              let (p, e, on, side) = left_shift_from 1 (initialize bits width).right q right r in
              inr (
                p,
                right_of (omega (arith, e)) (λ column. absurd (
                    true≢false (
                      sym (
                        column-right bits width (omega arith) p (on_board p on)
                          (rw (add-one p ∙ e) column))
                      ∙ side))),
                on,
              )
          | inl parts ↦ elim (or_cases _ _ parts) [
            | inr l ↦
                let (on, side) = (right_shift_iff 1 (initialize bits width).left q).0 l in
                inr (
                  q + 1,
                  left_of (omega arith) (λ column. absurd (
                      true≢false (
                        sym (
                          column-left bits width (omega arith) (q + 1) (on_board (q + 1) on) column)
                        ∙ side))),
                  on,
                )
            | inl parts ↦ elim (or_cases _ _ parts) [
              | inr d ↦
                  let (p, e, on, _) =
                    left_shift_from width (initialize bits width).bottom q bottom d in
                  inr (p, below e, on)
              | inl parts ↦ elim (or_cases _ _ parts) [
                | inr u ↦
                    let (on, _) = (right_shift_iff width (initialize bits width).up q).0 u in
                    inr (q + width, above refl, on)
                | inl on ↦ inl on
              ]
            ]
          ]
        ] in
        (here, near)

    -- Where the five parts hold.
    some_part :
        (q : ℕ)
        → (bit_is_on b q ≡ true)
          ⊎ (bit_is_on up_part q ≡ true)
          ⊎ (bit_is_on down_part q ≡ true)
          ⊎ (bit_is_on left_part q ≡ true)
          ⊎ (bit_is_on right_part q ≡ true)
        → (bit_is_on b q
            || bit_is_on up_part q
            || bit_is_on down_part q
            || bit_is_on left_part q
            || bit_is_on right_part q)
          ≡ true
    some_part q h = ground (arith, h)

    near_part :
        (q : ℕ)
        → q < width * width
        → (p : ℕ) → Adjacent width p q
        → bit_is_on b p ≡ true
        → (bit_is_on up_part q ≡ true)
          ⊎ (bit_is_on down_part q ≡ true)
          ⊎ (bit_is_on left_part q ≡ true)
          ⊎ (bit_is_on right_part q ≡ true)
    near_part q here p (above e) on = inl (
        (right_shift_iff width (initialize bits width).up q).1
          (rw e on, not_true _ (λ h. absurd (omega (arith, up-lt bits width _ h)))))
    near_part q here p (below e) on = inr (
        inl (
          rw (← e) (
            left_shift_on width (initialize bits width).bottom p (length-sides bits width).1
              (omega (arith, e, here)) on
              (not_true _
                (λ h. absurd (last_row width p (bottom-le bits width p h) (rw e here)))))))
    near_part q here p (left_of e column) on = inr (
        inr (
          inl (
            (right_shift_iff 1 (initialize bits width).left q).1 (
              rw (sym (add-one q) ∙ e) on,
              rw (sym (add-one q) ∙ e) (not_true _ (λ h. column (left-column bits width p h))),
            ))))
    near_part q here p (right_of e column) on = inr (
        inr (
          inr (
            rw (← sym (add-one p) ∙ e) (
              left_shift_on 1 (initialize bits width).right p (length-sides bits width).3
                (omega (arith, e, here)) on
                (not_true _ (λ h. column (rw (← e) (right-column bits width p h))))))))

    dilation_to : (q : ℕ) → q < width * width → Near q → bit_is_on (dilation bits width b) q ≡ true
    dilation_to q here near =
        let clear : bit_is_on (initialize bits width).pass q ≡ false =
          not_true _
            (λ h. absurd (omega (arith, here, (pass_iff bits width q (omega arith)).0 h))) in
        bit_is_on-dilation q
        ∙ and_intro _ _
            (some_part q (elim near [
              | inl on ↦ inl on
              | inr (p, near, on) ↦ inr (near_part q here p near on)
            ]))
            clear

    -- On a board of `width` columns, for a set of positions of the board: a position is in the dilation
    -- exactly when it lies on the board, and it or a neighbour of it is in the set.
    pub dilation-Near :
        (q : ℕ) → (bit_is_on (dilation bits width b) q ≡ true) ↔ ((q < width * width) × Near q)
    dilation-Near q = (dilation_from q, λ h. dilation_to q h.0 h.1)

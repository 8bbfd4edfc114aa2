-- ===== src/Board/Bitboard/Edges.antt =====
-- The static boards: which positions lie on each side of the board.
use native.Mathlib.Nat.{mul-mod_left, div-add-mod', div-lt_iff_lt-mul}
use proof_cost_network.Base.{
  ℕ, zero, suc, ◌+◌, ◌-◌, ◌*◌, ◌/◌, ◌%◌, ◌≤◌, ◌<◌, ◌≡◌, refl, sym, ◌∙◌, ap, true, length, ◌==◌,
  arith, ==→≡, ◌⊎◌, inl, inr, Bool-cases, ◌↔◌, true≢false,
}
use proof_cost_network.Board.Bitboard.{
  Bitboard, bit_is_on, reset, set_bit_on, Boundaries, initialize_loop, no_boundaries, initialize,
}
use proof_cost_network.Board.Bitboard.Bits.{
  bit_is_on-set_bit_on, bit_is_on-reset, length-set_bit_on, length-reset,
}

-- The positions `f p`, `f (p + 1)`, … switched on.
set_many : (ℕ → ℕ) → ℕ → ℕ → Bitboard → Bitboard
set_many f zero p b = b
set_many f (suc n) p b = set_many f n (suc p) (set_bit_on (f p) b)

abbrev Hit : (ℕ → ℕ) → ℕ → ℕ → ℕ → Type 0
Hit f n p q = (k : ℕ) × (p ≤ k) × (k < p + n) × (f k ≡ q)

length-set_many : (f : ℕ → ℕ) (n p : ℕ) (b : Bitboard) → length (set_many f n p b) ≡ length b
unfolding set_many
length-set_many f zero p b = refl
length-set_many f (suc n) p b =
    length-set_many f n (suc p) (set_bit_on (f p) b) ∙ length-set_bit_on (f p) b

set_bit_on-cases :
    (p q : ℕ) (b : Bitboard)
    → bit_is_on (set_bit_on p b) q ≡ true
    → (p ≡ q) ⊎ (bit_is_on b q ≡ true)
set_bit_on-cases p q b h = ground (arith, bit_is_on-set_bit_on b p q)

set_bit_on_keeps :
    (p q : ℕ) (b : Bitboard) → bit_is_on b q ≡ true → bit_is_on (set_bit_on p b) q ≡ true
set_bit_on_keeps p q b h = ground (arith, bit_is_on-set_bit_on b p q)

set_bit_on_self : (p : ℕ) (b : Bitboard) → p < length b → bit_is_on (set_bit_on p b) p ≡ true
set_bit_on_self p b h = ground (arith, bit_is_on-set_bit_on b p p)

set_many_sound :
    (f : ℕ → ℕ) (n p : ℕ) (b : Bitboard) (q : ℕ)
    → bit_is_on (set_many f n p b) q ≡ true
    → Hit f n p q ⊎ (bit_is_on b q ≡ true)
unfolding set_many
set_many_sound f zero p b q h = inr h
set_many_sound f (suc n) p b q h = elim (set_many_sound f n (suc p) (set_bit_on (f p) b) q h) [
  | inl (k, low, high, e) ↦ inl (k, omega (arith, low), omega (arith, high), e)
  | inr on ↦ elim (set_bit_on-cases (f p) q b on) [
    | inl e ↦ inl (p, omega arith, omega arith, e)
    | inr old ↦ inr old
  ]
]

set_many_keeps :
    (f : ℕ → ℕ) (n p : ℕ) (b : Bitboard) (q : ℕ)
    → bit_is_on b q ≡ true
    → bit_is_on (set_many f n p b) q ≡ true
unfolding set_many
set_many_keeps f zero p b q h = h
set_many_keeps f (suc n) p b q h =
    set_many_keeps f n (suc p) (set_bit_on (f p) b) q (set_bit_on_keeps (f p) q b h)

set_many_complete :
    (f : ℕ → ℕ) (n p k : ℕ) (b : Bitboard)
    → p ≤ k
    → k < p + n
    → f k < length b
    → bit_is_on (set_many f n p b) (f k) ≡ true
unfolding set_many
set_many_complete f zero p k b low high inside = absurd (omega (arith, low, high))
set_many_complete f (suc n) p k b low high inside = elim (Bool-cases (p == k)) [
  | inl e ↦
      set_many_keeps f n (suc p) (set_bit_on (f p) b) (f k)
        (rw (← ==→≡ p k e) (set_bit_on_self (f p) b (rw (==→≡ p k e) inside)))
  | inr ne ↦
      set_many_complete f n (suc p) k (set_bit_on (f p) b) (ground (arith, ne, low))
        (omega (arith, high)) (rw (length-set_bit_on (f p) b) inside)
]

module _ (bits width : ℕ) where
  abbrev up_at : ℕ → ℕ
  up_at p = p

  abbrev bottom_at : ℕ → ℕ
  bottom_at p = width * (width - 1) + p

  abbrev left_at : ℕ → ℕ
  left_at p = p * width

  abbrev right_at : ℕ → ℕ
  right_at p = suc p * width - 1

  loop_fields :
      (n p : ℕ) (s : Boundaries)
      → ((initialize_loop bits width n p s).up ≡ set_many up_at n p s.up)
        × ((initialize_loop bits width n p s).bottom ≡ set_many bottom_at n p s.bottom)
        × ((initialize_loop bits width n p s).left ≡ set_many left_at n p s.left)
        × ((initialize_loop bits width n p s).right ≡ set_many right_at n p s.right)
        × ((initialize_loop bits width n p s).pass ≡ s.pass)
  unfolding initialize_loop set_many
  loop_fields zero p s = (refl, refl, refl, refl, refl)
  loop_fields (suc n) p s = loop_fields n (suc p) _

  abbrev off : Bitboard
  off = reset bits

  -- Each side is the positions of its loop.
  sides :
      ((initialize bits width).up ≡ set_many up_at width 0 off)
      × ((initialize bits width).bottom ≡ set_many bottom_at width 0 off)
      × ((initialize bits width).left ≡ set_many left_at width 0 off)
      × ((initialize bits width).right ≡ set_many right_at width 0 off)
      × ((initialize bits width).pass ≡ set_bit_on (width * width) off)
  unfolding initialize reset
  sides =
      let (u, b, l, r, p) = loop_fields width 0 (no_boundaries bits width) in
      (u, b, l, r, ap (set_bit_on (width * width)) p)

  on_side : (f : ℕ → ℕ) (q : ℕ) → bit_is_on (set_many f width 0 off) q ≡ true → Hit f width 0 q
  on_side f q h = elim (set_many_sound f width 0 off q h) [
    | inl hit ↦ hit
    | inr on ↦ absurd (true≢false (sym on ∙ bit_is_on-reset bits q))
  ]

  side_on :
      (f : ℕ → ℕ) (k : ℕ) → k < width → f k < bits → bit_is_on (set_many f width 0 off) (f k) ≡ true
  side_on f k h inside =
      set_many_complete f width 0 k off (omega arith) (omega (arith, h))
        (rw (length-reset bits) inside)

  pub length-sides :
      (length (initialize bits width).up ≡ bits)
      × (length (initialize bits width).bottom ≡ bits)
      × (length (initialize bits width).left ≡ bits)
      × (length (initialize bits width).right ≡ bits)
      × (length (initialize bits width).pass ≡ bits)
  length-sides =
      let (u, b, l, r, p) = sides in
      let side : (f : ℕ → ℕ) → length (set_many f width 0 off) ≡ bits =
        λ f. length-set_many f width 0 off ∙ length-reset bits in
      (
        ap length u ∙ side up_at,
        ap length b ∙ side bottom_at,
        ap length l ∙ side left_at,
        ap length r ∙ side right_at,
        ap length p ∙ length-set_bit_on (width * width) off ∙ length-reset bits,
      )

  pub up-lt : (q : ℕ) → bit_is_on (initialize bits width).up q ≡ true → q < width
  up-lt q h =
      let (k, _, high, e) = on_side up_at q (ap (λ b. bit_is_on b q) (sym sides.0) ∙ h) in
      omega (arith, high, e)

  pub bottom-le :
      (q : ℕ) → bit_is_on (initialize bits width).bottom q ≡ true → width * (width - 1) ≤ q
  bottom-le q h =
      let (k, _, high, e) = on_side bottom_at q (ap (λ b. bit_is_on b q) (sym sides.1) ∙ h) in
      omega (arith, high, e)

  pub left-column : (q : ℕ) → bit_is_on (initialize bits width).left q ≡ true → q % width ≡ 0
  left-column q h =
      let (k, _, high, e) = on_side left_at q (ap (λ b. bit_is_on b q) (sym sides.2) ∙ h) in
      rw (← e) (mul-mod_left k width)

  pub right-column : (q : ℕ) → bit_is_on (initialize bits width).right q ≡ true → suc q % width ≡ 0
  right-column q h =
      let (k, _, high, e) = on_side right_at q (ap (λ b. bit_is_on b q) (sym sides.3) ∙ h) in
      let next : suc q ≡ suc k * width = grind (arith, e, high) in
      rw next (mul-mod_left (suc k) width)

  module _ (large : width * width < bits) where
    pub column-left :
        (q : ℕ)
        → q < width * width
        → q % width ≡ 0
        → bit_is_on (initialize bits width).left q ≡ true
    column-left q h column =
        let e : q / width * width ≡ q = omega (arith, div-add-mod' q width, column) in
        let wide : 0 < width = grind (arith, h) in
        let row : q / width < width = (div-lt_iff_lt-mul wide).1 h in
        ap (λ b. bit_is_on b q) sides.2
        ∙ ap (bit_is_on (set_many left_at width 0 off)) (sym e)
        ∙ side_on left_at (q / width) row (rw e (omega (arith, h, large)))

    pub column-right :
        (q : ℕ)
        → q < width * width
        → suc q % width ≡ 0
        → bit_is_on (initialize bits width).right q ≡ true
    column-right q h column =
        let e : suc q / width * width ≡ suc q = omega (arith, div-add-mod' (suc q) width, column) in
        let wide : 0 < width = grind (arith, h) in
        let row : suc q / width < width + 1 = (div-lt_iff_lt-mul wide).1 (grind (arith, h)) in
        let k = suc q / width - 1 in
        let some_row : 0 < suc q / width = grind (arith, e) in
        let one_more : suc k ≡ suc q / width = omega (arith, some_row) in
        let same : right_at k ≡ q = rw (one_more, e) (omega arith) in
        ap (λ b. bit_is_on b q) sides.3
        ∙ ap (bit_is_on (set_many right_at width 0 off)) (sym same)
        ∙ side_on right_at k (omega (arith, row, some_row)) (rw same (omega (arith, h, large)))

  pub pass_iff :
      (q : ℕ)
      → width * width < bits
      → (bit_is_on (initialize bits width).pass q ≡ true) ↔ (width * width ≡ q)
  pass_iff q large = (
    λ h. elim (set_bit_on-cases (width * width) q off (ap (λ b. bit_is_on b q) (sym sides.4) ∙ h)) [
      | inl e ↦ e
      | inr on ↦ absurd (true≢false (sym on ∙ bit_is_on-reset bits q))
    ],
    λ e.
        ap (λ b. bit_is_on b q) sides.4
        ∙ ap (bit_is_on (set_bit_on (width * width) off)) (sym e)
        ∙ set_bit_on_self (width * width) off (rw (length-reset bits) large),
  )

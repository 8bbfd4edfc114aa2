-- ===== src/Board/Bitboard/Floodfill.antt =====
-- `floodfill`: the positions of a set that are connected to a position of it.
use proof_cost_network.Base.{
  ℕ, zero, suc, ◌+◌, ◌*◌, ◌<◌, ◌≡◌, refl, sym, ◌∙◌, ap, Bool, true, false, ◌&&◌, length, ◌==◌, some,
  arith, ◌⊎◌, inl, inr, Bool-cases, ◌↔◌, true≢false, ==→≡, subst,
}
use proof_cost_network.Board.Bitboard.{
  Bitboard, bit_is_on, one_hot, dilation, ◌∩◌, equal, bit_count, floodfill_loop, floodfill,
}
use proof_cost_network.Board.Bitboard.Bits.{
  bit_is_on_inside, bit_is_on-one_hot, bit_is_on-intersection, length-intersection, length-one_hot,
}
use proof_cost_network.Board.Bitboard.Counts.{
  bit_count-le, bit_count-strict, bit_count-pos, equal→≡, Below,
}
use proof_cost_network.Board.Bitboard.Dilation.{Adjacent, dilation-Near, length-dilation}

-- Connected to `start` by steps to neighbours that stay in the set.
pub data Reach (width : ℕ) (within : Bitboard) (start : ℕ) : ℕ → Type 0 where
  here : Reach width within start start
  step :
      {p q : ℕ}
      → Reach width within start p
      → Adjacent width p q
      → bit_is_on within q ≡ true
      → Reach width within start q

both : (a b : Bool) → (a && b) ≡ true → (a ≡ true) × (b ≡ true)
both true b h = (refl, h)
both false b h = cc

both_intro : (a b : Bool) → a ≡ true → b ≡ true → (a && b) ≡ true
both_intro a b h k = ground (arith, h, k)

module _ (width : ℕ) (within : Bitboard) (sized : length within ≡ suc (width * width))
    (no_pass : bit_is_on within (width * width) ≡ false) (start : ℕ)
    (begun : bit_is_on within start ≡ true) where
  abbrev bits : ℕ
  bits = suc (width * width)

  abbrev In : Bitboard → ℕ → Type 0
  In b p = bit_is_on b p ≡ true

  Reach-In : {p : ℕ} → Reach width within start p → In within p
  Reach-In here = begun
  Reach-In (step r near on) = on

  record Inv (block : Bitboard) : Type 0 where
    same : length block ≡ bits
    started : In block start
    reached : (p : ℕ) → In block p → Reach width within start p

  open_board : (block : Bitboard) → Inv block → bit_is_on block (width * width) ≡ false
  open_board block inv = elim (Bool-cases (bit_is_on block (width * width))) [
    | inl on ↦ absurd (true≢false (sym (Reach-In (inv.reached _ on)) ∙ no_pass))
    | inr off ↦ off
  ]

  abbrev grown : Bitboard → Bitboard
  grown block = dilation bits width block ∩ within

  grown-In :
      (block : Bitboard) (q : ℕ)
      → Inv block
      → In (grown block) q
      → ((In block q) ⊎ ((p : ℕ) × Adjacent width p q × In block p)) × In within q
  grown-In block q inv h =
      let (near, on) = both _ _ (sym (bit_is_on-intersection _ within q) ∙ h) in
      (((dilation-Near width block inv.same (open_board block inv) q).0 near).1, on)

  In-grown :
      (block : Bitboard) (q : ℕ)
      → Inv block
      → (In block q) ⊎ ((p : ℕ) × Adjacent width p q × In block p)
      → In within q
      → In (grown block) q
  In-grown block q inv near on =
      let inside : q < width * width = elim (Bool-cases (q == width * width)) [
        | inl e ↦ absurd (true≢false (sym on ∙ ap (bit_is_on within) (==→≡ q _ e) ∙ no_pass))
        | inr ne ↦ ground (arith, bit_is_on_inside within q on, sized, ne)
      ] in
      bit_is_on-intersection (dilation bits width block) within q
      ∙ both_intro _ _
          ((dilation-Near width block inv.same (open_board block inv) q).1 (inside, near)) on

  grown-Below : (block : Bitboard) → Inv block → Below block (grown block)
  grown-Below block inv p on = In-grown block p inv (inl on) (Reach-In (inv.reached p on))

  grown-Inv : (block : Bitboard) → Inv block → Inv (grown block)
  grown-Inv block inv = record {
    same =
        length-intersection _ within (length-dilation width block inv.same ∙ sym sized)
        ∙ length-dilation width block inv.same;
    started = grown-Below block inv start inv.started;
    reached = λ q on.
        let (near, stays) = grown-In block q inv on in
        elim near [
          | inl old ↦ inv.reached q old
          | inr (p, next, old) ↦ step (inv.reached p old) next stays
        ];
  }

  -- Every round that goes on adds a position, so the fuel lasts.
  floodfill_loop_ends :
      (fuel : ℕ) (block : Bitboard)
      → Inv block
      → bits < fuel + bit_count block
      → (r : Bitboard) × (floodfill_loop bits width fuel within block ≡ some r)
        × Inv r
        × (r ≡ grown r)
  unfolding floodfill_loop
  floodfill_loop_ends zero block inv room =
      absurd (omega (arith, room, bit_count-le block, inv.same))
  floodfill_loop_ends (suc fuel) block inv room = elim (Bool-cases (equal block (grown block))) [
    | inl done ↦ (block, rw (done, floodfill_loop) refl, inv, equal→≡ block (grown block) done)
    | inr more ↦
        let next = grown-Inv block inv in
        let larger =
          bit_count-strict block (grown block) (inv.same ∙ sym next.same) (grown-Below block inv)
            more in
        let (r, e, inv', closed) =
          floodfill_loop_ends fuel (grown block) next (omega (arith, larger, room)) in
        (r, rw (more, floodfill_loop) e, inv', closed)
  ]

  first-Inv : Inv (one_hot bits start)
  first-Inv = record {
    same = length-one_hot bits start;
    started =
        ground
          (arith, bit_is_on-one_hot bits start start, bit_is_on_inside within start begun, sized);
    reached = λ p on. subst (Reach width within start) (only p on) here;
  }
    where
      only : (p : ℕ) → In (one_hot bits start) p → start ≡ p
      only p on = ==→≡ start p (both _ _ (sym (bit_is_on-one_hot bits start p) ∙ on)).0

  closed-In : (r : Bitboard) {q : ℕ} → Inv r → r ≡ grown r → Reach width within start q → In r q
  closed-In r inv closed here = inv.started
  closed-In r inv closed (step {p} {q} path near on) =
      subst (λ b. In b q) (sym closed)
        (In-grown r q inv (inr (p, near, closed-In r inv closed path)) on)

  -- On a board of `width` columns, from a position of a set that does not hold the pass: the flood fill
  -- ends, with the positions that steps to neighbours within the set lead to, and no other.
  pub floodfill-Reaches :
      (r : Bitboard) × (floodfill bits width within start ≡ some r)
      × (length r ≡ bits)
      × ((q : ℕ) → (bit_is_on r q ≡ true) ↔ Reach width within start q)
  unfolding floodfill
  floodfill-Reaches =
      let (r, e, inv, closed) =
        floodfill_loop_ends bits (one_hot bits start) first-Inv
          (omega (arith, bit_count-pos (one_hot bits start) start first-Inv.started)) in
      (r, e, inv.same, λ q. (inv.reached q, closed-In r inv closed))

-- ===== src/Games/Go/State/Check.antt =====
-- A test of `IsLinked`, which evaluates on a concrete state.
use proof_cost_network.Base.{
  ℕ, zero, suc, ◌+◌, ◌<◌, ◌≤◌, ◌≡◌, ◌≢◌, refl, sym, ◌∙◌, ap, subst, Bool, true, false, not, ◌&&◌,
  ◌||◌, List, [], ◌∷◌, length, ◌==◌, ==→≡, ltb, ltb→lt, ltb→le, Option, none, some, ◌⊎◌, inl, inr,
  Bool-cases, Option-cases, true≢false, arith, get_or, In,
}
use proof_cost_network.Board.Color.{Color, black, white, eqb, eqb→≡}
use proof_cost_network.Board.Bitboard.{Bitboard, bit_is_on}
use proof_cost_network.Games.Go.Area.{num_grids}
use proof_cost_network.Games.Go.Grid.{get_neighbors}
use proof_cost_network.Games.Go.State.{GoGame, blank_grid, blank_block, grid_at, block_at}
use proof_cost_network.Games.Go.State.Linked.{Belongs, IsLinked}

all_below : ℕ → (ℕ → Bool) → Bool
all_below zero f = true
all_below (suc n) f = f n && all_below n f

all_bits : (ℕ → Bool) → ℕ → Bitboard → Bool
all_bits f i [] = true
all_bits f i (true ∷ b) = f i && all_bits f (suc i) b
all_bits f i (false ∷ b) = all_bits f (suc i) b

all_listed : (ℕ → Bool) → List ℕ → Bool
all_listed f [] = true
all_listed f (q ∷ qs) = f q && all_listed f qs

abbrev is_block : ℕ → Option ℕ → Bool
is_block i none = false
is_block i (some j) = i == j

abbrev block_fits : GoGame → ℕ → ℕ → Bool
block_fits s q i =
    let g = grid_at s q in
    let b = block_at s i in
    (eqb g.color black || eqb g.color white)
    && ((b.index == i)
        && (eqb b.color g.color && (not (bit_is_on s.block_usage i) && bit_is_on b.grids q)))

grid_ok : GoGame → ℕ → Bool
grid_ok s q = elim (grid_at s q).block [
  | none ↦ eqb (grid_at s q).color Color.none
  | some i ↦ block_fits s q i
]

block_ok : GoGame → ℕ → Bool
unfolding all_bits
block_ok s i = all_bits (λ q. is_block i (grid_at s q).block) 0 (block_at s i).grids

abbrev touches : GoGame → ℕ → Option ℕ → Bool
touches s p none = true
touches s p (some i) = bit_is_on (block_at s i).liberties p

liberty_ok : GoGame → ℕ → Bool
unfolding all_listed
liberty_ok s p =
    not (eqb (grid_at s p).color Color.none)
    || all_listed (λ q. touches s p (grid_at s q).block) (get_neighbors p)

unfoldable pub links_ok : GoGame → Bool
unfolding all_below grid_ok block_ok liberty_ok
links_ok s =
    (length s.grids == num_grids)
    && (all_below num_grids (grid_ok s)
        && (all_below (length s.blocks) (block_ok s) && all_below num_grids (liberty_ok s)))

both : (a b : Bool) → (a && b) ≡ true → (a ≡ true) × (b ≡ true)
both true b h = (refl, h)
both false b h = cc

all_below_sound : (n : ℕ) (f : ℕ → Bool) (i : ℕ) → all_below n f ≡ true → i < n → f i ≡ true
unfolding all_below
all_below_sound zero f i h less = absurd (omega (arith, less))
all_below_sound (suc n) f i h less =
    let (here, rest) = both (f n) _ h in
    elim (Bool-cases (i == n)) [
      | inl e ↦ subst (λ k. f k ≡ true) (sym (==→≡ i n e)) here
      | inr ne ↦ all_below_sound n f i rest (ground (arith, less, ne))
    ]

all_bits_sound :
    (f : ℕ → Bool) (i : ℕ) (b : Bitboard) (q : ℕ)
    → all_bits f i b ≡ true
    → bit_is_on b q ≡ true
    → f (q + i) ≡ true
unfolding all_bits
all_bits_sound f i [] q h on = cc
all_bits_sound f i (true ∷ b) zero h on =
    let e : i ≡ zero + i = omega arith in subst (λ k. f k ≡ true) e (both (f i) _ h).0
all_bits_sound f i (false ∷ b) zero h on = cc
all_bits_sound f i (true ∷ b) (suc q) h on =
    let e : q + suc i ≡ suc q + i = omega arith in
    subst (λ k. f k ≡ true) e (all_bits_sound f (suc i) b q (both (f i) _ h).1 on)
all_bits_sound f i (false ∷ b) (suc q) h on =
    let e : q + suc i ≡ suc q + i = omega arith in
    subst (λ k. f k ≡ true) e (all_bits_sound f (suc i) b q h on)

all_listed_sound :
    (f : ℕ → Bool) (qs : List ℕ) (q : ℕ) → all_listed f qs ≡ true → In qs q → f q ≡ true
unfolding all_listed
all_listed_sound f [] q h k = elim k [ ]
all_listed_sound f (x ∷ qs) q h (inl e) = subst (λ k. f k ≡ true) (sym e) (both (f x) _ h).0
all_listed_sound f (x ∷ qs) q h (inr k) = all_listed_sound f qs q (both (f x) _ h).1 k

get_or_outside {ℓ} : {A : Type ℓ} (xs : List A) (i : ℕ) (d : A) → length xs ≤ i → get_or xs i d ≡ d
get_or_outside [] i d h = refl
get_or_outside (x ∷ xs) zero d h = absurd (omega (arith, h))
get_or_outside (x ∷ xs) (suc i) d h = get_or_outside xs i d (omega (arith, h))

module _ (s : GoGame) (checked : links_ok s ≡ true) where
  parts :
      (length s.grids ≡ num_grids)
      × (all_below num_grids (grid_ok s) ≡ true)
      × (all_below (length s.blocks) (block_ok s) ≡ true)
      × (all_below num_grids (liberty_ok s) ≡ true)
  unfolding links_ok
  parts =
      let (a, rest) = both _ _ checked in
      let (b, rest') = both _ _ rest in let (c, d) = both _ _ rest' in (==→≡ _ _ a, b, c, d)

  grid_checked : (q : ℕ) → grid_ok s q ≡ true
  unfolding grid_ok
  grid_checked q = elim (Bool-cases (ltb q num_grids)) [
    | inl inside ↦ all_below_sound num_grids (grid_ok s) q parts.1 (ltb→lt q num_grids inside)
    | inr outside ↦
        let e =
          get_or_outside s.grids q blank_grid
            (subst (λ n. n ≤ q) (sym parts.0) (ltb→le q num_grids outside)) in
        rw (ap (λ g. g.block) e, grid_ok) (ap (λ g. eqb g.color Color.none) e)
  ]

  fits : (q i : ℕ) → Belongs s q i → block_fits s q i ≡ true
  unfolding grid_ok
  fits q i here = rw (here, grid_ok) at (grid_checked q)

  facts :
      (q i : ℕ)
      → Belongs s q i
      → (((grid_at s q).color ≡ black) ⊎ ((grid_at s q).color ≡ white))
        × ((block_at s i).index ≡ i)
        × ((block_at s i).color ≡ (grid_at s q).color)
        × (bit_is_on s.block_usage i ≡ false)
        × (bit_is_on (block_at s i).grids q ≡ true)
  facts q i here =
      let (a, rest) = both _ _ (fits q i here) in
      let (b, rest') = both _ _ rest in
      let (c, rest'') = both _ _ rest' in
      let (d, e) = both _ _ rest'' in (either _ a, ==→≡ _ _ b, eqb→≡ _ _ c, off _ d, e)
    where
      either : (c : Color) → (eqb c black || eqb c white) ≡ true → (c ≡ black) ⊎ (c ≡ white)
      either Color.black h = inl refl
      either Color.white h = inr refl
      either Color.none h = cc
      either Color.color_size h = cc

      off : (b : Bool) → not b ≡ true → b ≡ false
      off b h = ground (arith, h)

  stone_block : (q : ℕ) → (grid_at s q).color ≢ Color.none → (i : ℕ) × Belongs s q i
  unfolding grid_ok
  stone_block q stone = elim (Option-cases (grid_at s q).block) [
    | inr found ↦ found
    | inl gone ↦ absurd (stone (eqb→≡ _ _ (rw (gone, grid_ok) at (grid_checked q))))
  ]

  is_block_sound : (i : ℕ) (o : Option ℕ) → is_block i o ≡ true → o ≡ some i
  is_block_sound i none h = cc
  is_block_sound i (some j) h = ap some (sym (==→≡ i j h))

  held_only : (q i : ℕ) → bit_is_on (block_at s i).grids q ≡ true → Belongs s q i
  unfolding block_ok
  held_only q i on = elim (Bool-cases (ltb i (length s.blocks))) [
    | inl inside ↦
        let h = all_below_sound (length s.blocks) (block_ok s) i parts.2 (ltb→lt i _ inside) in
        let e : q + 0 ≡ q = omega arith in
        is_block_sound i _ (
          subst (λ k. is_block i (grid_at s k).block ≡ true) e
            (all_bits_sound (λ q. is_block i (grid_at s q).block) 0 (block_at s i).grids q h on))
    | inr outside ↦
        let e = get_or_outside s.blocks i blank_block (ltb→le i _ outside) in
        absurd (true≢false (sym on ∙ ap (λ b. bit_is_on b.grids q) e))
  ]

  empty_liberty :
      (p q i : ℕ)
      → p < num_grids
      → In (get_neighbors p) q
      → (grid_at s p).color ≡ Color.none
      → Belongs s q i
      → bit_is_on (block_at s i).liberties p ≡ true
  unfolding liberty_ok
  empty_liberty p q i inside near free here =
      let h = all_below_sound num_grids (liberty_ok s) p parts.3 inside in
      let touching =
        all_listed_sound (λ q. touches s p (grid_at s q).block) (get_neighbors p) q
          (second _ _ (ap (λ c. eqb c Color.none) free) h) near in
      rw here at touching
    where
      second : (a b : Bool) → a ≡ true → (not a || b) ≡ true → b ≡ true
      second a b h k = ground (arith, h, k)

  -- A state that passes the test is linked.
  pub links_ok-IsLinked : IsLinked s
  links_ok-IsLinked = record {
    sized = parts.0;
    has_block = stone_block;
    has_stone = λ q i here. (facts q i here).0;
    index = λ q i here. (facts q i here).1;
    color = λ q i here. (facts q i here).2;
    in_use = λ q i here. (facts q i here).3;
    holds = λ q i here. (facts q i here).4;
    only = held_only;
    liberty = empty_liberty;
  }

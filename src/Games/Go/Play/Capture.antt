-- ===== src/Games/Go/Play/Capture.antt =====
-- The blocks that a stone takes, and the key of the position after it.
use proof_cost_network.Base.{
  ℕ, ◌≡◌, ◌≢◌, refl, ◌∙◌, ap, Bool, true, List, [], ◌∷◌, ◌++◌, ◌==◌, some, inl, inr, Bool-cases,
  get_or-set_cases, arith, if◌then◌else◌, bit_xor, In, Distinct,
}
use proof_cost_network.Board.Color.{Color, against_color}
use proof_cost_network.Board.Bitboard.{bit_is_on, bit_count}
use proof_cost_network.Board.Bitboard.Counts.{bit_count-set_bit_off}
use proof_cost_network.Games.Go.Block.{GoBlock}
use proof_cost_network.Games.Go.State.{
  HashKeys, GoGame, block_at, blank_block, set_block, remove_liberty,
}
use proof_cost_network.Games.Go.State.Frame.{Safe, set_block-Frame, remove_block_and_grids-Frames}
use proof_cost_network.Games.Go.Play.{capture}

-- A block with one liberty, which the stone takes.
abbrev pub dies : GoBlock → Bool
dies b = bit_count b.liberties == 1

-- The key, with that of each block of the list that dies.
abbrev pub taken_key : GoGame → ℕ → List ℕ → ℕ
taken_key s k [] = k
taken_key s k (j ∷ js) =
    taken_key s (if dies (block_at s j) then bit_xor k (block_at s j).hash_key else k) js

pub taken_key-append :
    (s : GoGame) (k : ℕ) (js : List ℕ) (j : ℕ)
    → taken_key s k (js ++ j ∷ []) ≡ (
        if dies (block_at s j)
        then bit_xor (taken_key s k js) (block_at s j).hash_key
        else taken_key s k js)
taken_key-append s k [] j = refl
taken_key-append s k (i ∷ js) j =
    taken_key-append s (if dies (block_at s i) then bit_xor k (block_at s i).hash_key else k) js j

last_liberty :
    (p : ℕ) (b : GoBlock)
    → bit_is_on b.liberties p ≡ true
    → (bit_count (remove_liberty p b).liberties == 0) ≡ dies b
unfolding remove_liberty
last_liberty p b on = ground (arith, bit_count-set_bit_off b.liberties p on)

module _ (keys : HashKeys) (p : ℕ) (c : Color) (stone : c ≢ Color.none) (s : GoGame) where
  -- The blocks of the list as they are before the move: the opponent's, with the liberty `p`.
  abbrev pub Prey : List ℕ → Type 0
  Prey js =
      (j : ℕ)
      → In js j
      → (against_color (block_at s j).color ≡ c) × (bit_is_on (block_at s j).liberties p ≡ true)

  abbrev pub Same : List ℕ → GoGame → Type 0
  Same js u = (j : ℕ) → In js j → block_at u j ≡ block_at s j

  abbrev pub Captured : List ℕ → GoGame → Type 0
  Captured js u =
      (t : GoGame) × (capture keys p js u ≡ some t)
      × (t.hash_key ≡ taken_key s u.hash_key js)
      × (t.hash_table ≡ u.hash_table)

  pub capture-Captured :
      (js : List ℕ) (u : GoGame)
      → Distinct js
      → Prey js
      → Same js u
      → Safe c (In js) u
      → Captured js u
  unfolding capture remove_liberty
  capture-Captured [] u distinct prey same safe = (u, refl, refl, refl)
  capture-Captured (j ∷ js) u (new, distinct) prey same safe =
      let b = remove_liberty p (block_at u j) in
      let v = set_block j b u in
      let at = same j (inl refl) in
      let (foe, on) = prey j (inl refl) in
      let count : (bit_count b.liberties == 0) ≡ dies (block_at s j) =
        last_liberty p (block_at u j) (ap (λ k. bit_is_on k.liberties p) at ∙ on)
        ∙ ap (λ k. dies k) at in
      let safe_v : Safe c (In js) v =
        λ q h. let (i, e, out) = safe q h in (i, e, λ k. out (inr k)) in
      let f = set_block-Frame c (In js) u j b new in
      let same_v : Same js v = λ i h. f.keeps i h ∙ same i (inr h) in
      let prey' : Prey js = λ i h. prey i (inr h) in
      elim (Bool-cases (dies (block_at s j))) [
        | inr lives ↦
            let (t, e, key, table) = capture-Captured js v distinct prey' same_v safe_v in
            (t, rw (count ∙ lives, capture) e, rw lives key, table)
        | inl taken ↦
            let w = record v { hash_key = bit_xor v.hash_key b.hash_key } in
            let color : (block_at w j).color ≡ (block_at u j).color =
              elim (get_or-set_cases u.blocks j j b blank_block) [
                | inl (_, e) ↦ ap (λ k. k.color) e
                | inr e ↦ ap (λ k. k.color) e
              ] in
            let (x, e, g, safe_x) =
              remove_block_and_grids-Frames c (In js) stone j w
                (ap (λ d. against_color d) (color ∙ ap (λ k. k.color) at) ∙ foe) new safe_v in
            let (t, e', key, table) =
              capture-Captured js x distinct prey' (λ i h. g.keeps i h ∙ same_v i h) safe_x in
            (
              t,
              rw (count ∙ taken, capture) (rw e e'),
              rw taken (
                  key
                  ∙ ap (λ k. taken_key s k js)
                      (g.key ∙ ap (λ k. bit_xor u.hash_key k.hash_key) at)),
              table ∙ g.table,
            )
      ]

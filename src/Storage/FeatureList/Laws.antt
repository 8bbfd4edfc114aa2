-- ===== src/Storage/FeatureList/Laws.antt =====
-- A freed feature is the next one that is handed out.
use proof_cost_network.Base.{
  ℕ, ◌+◌, ◌-◌, ◌^◌, ◌%◌, ◌<◌, ◌≡◌, ◌≢◌, refl, sym, ◌∙◌, ap, true, false, not, ◌==◌, List, length,
  get_or, set, get_or-set_self, get_or-set_ne, length-set, arith, ==_self, subst,
}
use proof_cost_network.Storage.FixedList as Fixed
use proof_cost_network.Storage.FixedList.{FixedList}
use proof_cost_network.Storage.FeatureList.{
  Feature, FeatureList, get_at, new_one, free_one, is_valid_idx, no_id,
}

module _ (feature : Feature) (i : ℕ) (l : FeatureList feature.F)
    (named : feature.get_id (get_at feature i l) ≡ i) (inside : i < length l.elements)
    (room : l.free.size < length l.free.elems) (fits : l.size < 2 ^ 32) where
  abbrev freed : FeatureList feature.F
  freed = free_one feature i l

  abbrev cleared : List feature.F
  cleared = set l.elements i (feature.clear (get_or l.elements i feature.blank))

  -- The list after the index `k` is handed out.
  abbrev handed : ℕ → ℕ × FeatureList feature.F
  handed k = (
    k,
    record {
      capacity = l.capacity;
      size = ((l.size + 2 ^ 32 - 1) % 2 ^ 32 + 1) % 2 ^ 32;
      elements = set cleared k (feature.set_id k (get_or cleared k feature.blank));
      free = record { size = l.free.size + 1 - 1; elems = set l.free.elems l.free.size i };
    },
  )

  again : new_one feature freed ≡ handed i
  unfolding new_one free_one get_at Fixed.remove_last Fixed.insert Fixed.allocate_one
      Fixed.element_at
  again =
      let some_free : (l.free.size + 1 == 0) ≡ false = ground arith in
      let back : l.free.size + 1 - 1 ≡ l.free.size = omega arith in
      let top : get_or (set l.free.elems l.free.size i) (l.free.size + 1 - 1) 0 ≡ i =
        ap (λ n. get_or (set l.free.elems l.free.size i) n 0) back
        ∙ get_or-set_self l.free.elems l.free.size i 0 room in
      rw named (rw some_free (ap handed top))

  -- In a list whose number of features in use is one of 32 bits, with room in the list of freed
  -- indices: a feature in use that is freed is no valid index any more. The next new one is that
  -- feature again, with its index as its id; no other feature has changed, and the capacity, the
  -- number of features in use and the freed indices that are listed are as before.
  pub new_one-free_one :
      let r = new_one feature freed in
      (is_valid_idx feature i freed ≡ false)
      × (r.0 ≡ i)
      × (feature.get_id (get_at feature i r.1) ≡ i)
      × ((j : ℕ) → i ≢ j → get_at feature j r.1 ≡ get_at feature j l)
      × (r.1.capacity ≡ l.capacity)
      × (r.1.free.size ≡ l.free.size)
      × ((j : ℕ) → j < l.free.size → get_or r.1.free.elems j 0 ≡ get_or l.free.elems j 0)
      × (r.1.size ≡ l.size)
  unfolding free_one get_at is_valid_idx
  new_one-free_one =
      let here =
        get_or-set_self l.elements i (feature.clear (get_or l.elements i feature.blank))
          feature.blank inside in
      let gone : (feature.get_id (get_or cleared i feature.blank) == no_id) ≡ true =
        ap (λ x. x == no_id) (ap feature.get_id here ∙ feature.get_id-clear _) ∙ ==_self no_id in
      let named_again =
        ap feature.get_id (
          get_or-set_self cleared i (feature.set_id i (get_or cleared i feature.blank))
            feature.blank (subst (λ n. i < n) (sym (length-set l.elements i _)) inside))
        ∙ feature.get_id-set_id i _ in
      rw again (
        ap not gone,
        refl,
        named_again,
        λ j other.
            get_or-set_ne cleared i j _ feature.blank other
            ∙ get_or-set_ne l.elements i j _ feature.blank other,
        refl,
        omega arith,
        λ j below. get_or-set_ne l.free.elems l.free.size j i 0 (omega (arith, below)),
        omega (arith, fits),
      )

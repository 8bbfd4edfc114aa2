-- ===== src/Storage/OpenAddress/Laws.antt =====
-- The table is a map: what lookup and store do to its keys and their contents.
use native.Mathlib.Nat.{mod-lt}
use mathlib.Core.Option
use mathlib.Core.Path.{fun_ext}
use proof_cost_network.Base.{
  ℕ, zero, suc, ap, ◌+◌, ◌%◌, ◌^◌, ◌<◌, ◌≡◌, ◌≢◌, refl, sym, ◌∙◌, Bool, true, false, arith,
}
use proof_cost_network.Base.{Option, none, some, none≢some, ◌⊎◌, ◌↔◌, inl, inr, Bool-cases}
use proof_cost_network.Base.{
  map, List, [], ◌∷◌, length, get_or, set, replicate, length-replicate, get_or-set, get_or-set_self,
  get_or-set_ne, length-set,
}
use proof_cost_network.Storage.Probing.{
  slot, Member, IsProbed, probe, land, probe-Ends, Ends, hit, miss,
}
use proof_cost_network.Storage.Probing.{
  write, land-Lands, not-Member, write-IsProbed, Member-write, distance_of,
}
use proof_cost_network.Storage.OpenAddress.{
  Entry, Table, home, out_of_range, entry_at, is_full, lookup_loop, store_loop, lookup, store, view,
  new, clear, released,
}

abbrev pub to_nat : Bool → ℕ
to_nat true = 1
to_nat false = 0

-- The number of free entries.
abbrev pub free_count : {A : Type 0} → List (Entry A) → ℕ
free_count [] = 0
free_count (e ∷ es) = to_nat e.is_free + free_count es

pub home-lt : (n k : ℕ) → 0 < n → home n k < n
unfolding home
home-lt n k h = mod-lt _ h

module _ {A : Type 0} (clean : A) where
  pub record IsValid (t : Table A) : Type 0 where
    pub sized : length t.entries ≡ t.size
    pub counted : t.count + free_count t.entries ≡ t.size
    pub probed : IsProbed t.size (home t.size) (view clean t)

  abbrev pub HasRoom : Table A → Type 0
  HasRoom t = (s : ℕ) × (s < t.size) × (view clean t s ≡ none)

  abbrev pub Contains : Table A → ℕ → Type 0
  Contains t k = Member t.size (view clean t) k

  free_count-replicate :
      (n junk : ℕ)
      → free_count (replicate n (record { key = junk; is_free = true; content = clean })) ≡ n
  free_count-replicate zero junk = refl
  free_count-replicate (suc n) junk = omega (arith, free_count-replicate n junk)

  free-replicate :
      (n s junk : ℕ)
      → (get_or
          (replicate n (record { key = junk; is_free = true; content = clean }))
          s
          (out_of_range clean)).is_free
        ≡ true
  free-replicate zero s junk = refl
  free-replicate (suc n) zero junk = refl
  free-replicate (suc n) (suc s) junk = free-replicate n s junk

  -- A new table is valid, whatever keys its memory held.
  pub new-IsValid : (junk bit_size : ℕ) → IsValid (new clean junk bit_size)
  unfolding new view
  new-IsValid junk bit_size = record {
    sized = length-replicate (2 ^ bit_size) _;
    counted = omega (arith, free_count-replicate (2 ^ bit_size) junk);
    probed = λ s k h e. absurd (none≢some (sym (unseen s) ∙ e));
  }
    where
      unseen : (s : ℕ) → view clean (new clean junk bit_size) s ≡ none
      unseen s = rw (free-replicate (2 ^ bit_size) s junk) refl

  free_slot :
      (es : List (Entry A))
      → 0 < free_count es
      → (s : ℕ) × (s < length es) × ((get_or es s (out_of_range clean)).is_free ≡ true)
  free_slot [] h = elim h [ ]
  free_slot (e ∷ es) h = elim (Bool-cases e.is_free) [
    | inl free ↦ (0, omega arith, free)
    | inr taken ↦
        let (s, hs, free) = free_slot es (ground (arith, taken, h)) in
        (suc s, omega (arith, hs), free)
  ]

  -- A table that does not say that it is full has a free slot.
  pub is_full-HasRoom : (t : Table A) → IsValid t → is_full t ≡ false → HasRoom t
  unfolding is_full view
  is_full-HasRoom t valid h =
      let (s, hs, free) = free_slot t.entries (ground (arith, valid.counted)) in
      (s, rw valid.sized at hs, rw free)

  pub lookup_loop-probe :
      (fuel : ℕ) (t : Table A) (k i : ℕ)
      → lookup_loop clean fuel t k i ≡ probe t.size (view clean t) k fuel i
  unfolding lookup_loop probe view
  lookup_loop-probe zero t k i = refl
  lookup_loop-probe (suc fuel) t k i = ground (arith, lookup_loop-probe fuel t k ((i + 1) % t.size))

  abbrev pub stored : ℕ → A → Entry A
  stored k a = record { key = k; is_free = false; content = a }

  -- The table after a write to a slot.
  abbrev pub written : Table A → ℕ → A → ℕ → Table A
  written t k a s = record t { count = t.count + 1; entries = set t.entries s (stored k a) }

  pub store_loop-land :
      (fuel : ℕ) (t : Table A) (k : ℕ) (a : A) (i : ℕ)
      → store_loop clean fuel t k a i
        ≡ Option.map (written t k a) (land t.size (view clean t) fuel i)
  unfolding store_loop land view
  store_loop-land zero t k a i = refl
  store_loop-land (suc fuel) t k a i = ground (arith, store_loop-land fuel t k a ((i + 1) % t.size))

  -- Whatever the table, an index that a lookup gives holds the key.
  pub lookup-hit :
      (t : Table A) (k i : ℕ)
      → lookup clean k t ≡ some (some i)
      → ((entry_at clean t i).is_free ≡ false) × ((entry_at clean t i).key ≡ k)
  unfolding lookup lookup_loop
  lookup-hit t k i = loop t.size (home t.size k)
    where
      loop :
          (fuel j : ℕ)
          → lookup_loop clean fuel t k j ≡ some (some i)
          → ((entry_at clean t i).is_free ≡ false) × ((entry_at clean t i).key ≡ k)
      loop zero j h = cc
      loop (suc fuel) j h = ground (arith, loop fuel ((j + 1) % t.size))

  -- Whatever the table, a store that ends has written one slot.
  pub store-written :
      (t u : Table A) (k : ℕ) (a : A) → store clean k a t ≡ some u → (s : ℕ) × (u ≡ written t k a s)
  unfolding store store_loop
  store-written t u k a = loop t.size (home t.size k)
    where
      loop : (fuel j : ℕ) → store_loop clean fuel t k a j ≡ some u → (s : ℕ) × (u ≡ written t k a s)
      loop zero j h = cc
      loop (suc fuel) j h = elim (Bool-cases (entry_at clean t j).is_free) [
        | inl free ↦ (j, ground (arith, h, free))
        | inr taken ↦ loop fuel ((j + 1) % t.size) (ground (arith, h, taken))
      ]

  view-written :
      (t : Table A) (k : ℕ) (a : A) (s i : ℕ)
      → s < length t.entries
      → view clean (written t k a s) i ≡ write (view clean t) s k i
  unfolding view
  view-written t k a s i h =
      ground (arith, get_or-set t.entries s i (stored k a) (out_of_range clean) h)

  -- After `clear` no slot is taken, and slots out of range never are.
  pub clear-free : (t : Table A) (i : ℕ) → (entry_at clean (clear clean t) i).is_free ≡ true
  unfolding clear released
  clear-free t = by_slot t.entries
    where
      by_slot :
          (es : List (Entry A)) (i : ℕ)
          → (get_or (map (released clean) es) i (out_of_range clean)).is_free ≡ true
      by_slot [] i = refl
      by_slot (e ∷ es) zero = refl
      by_slot (e ∷ es) (suc i) = by_slot es i

  free_count-set :
      (es : List (Entry A)) (s k : ℕ) (a : A)
      → s < length es
      → (get_or es s (out_of_range clean)).is_free ≡ true
      → suc (free_count (set es s (stored k a))) ≡ free_count es
  free_count-set [] s k a h free = elim h [ ]
  free_count-set (e ∷ es) zero k a h free = rw free (omega arith)
  free_count-set (e ∷ es) (suc s) k a h free =
      omega (arith, free_count-set es s k a (omega arith) free)

  view_free : (t : Table A) (s : ℕ) → view clean t s ≡ none → (entry_at clean t s).is_free ≡ true
  unfolding view
  view_free t s h = ground (arith, h)

  module _ (t : Table A) (valid : IsValid t) (room : HasRoom t) (k : ℕ) where
    positive : 0 < t.size
    positive = omega (arith, room.1)

    start : (d : ℕ) × (d < t.size) × (view clean t (slot t.size (home t.size k) d) ≡ none)
    start =
        let (d, hd, e) =
          distance_of t.size (home t.size k) room.0 (home-lt t.size k positive) room.1 in
        (d, hd, rw e room.2)

    -- The index that a lookup gives: where the key stands, or -1 if it is nowhere.
    abbrev pub Locates : Option ℕ → Type 0
    Locates (some s) = (s < t.size) × (view clean t s ≡ some k)
    Locates none = ¬ Contains t k

    -- In a valid table with a free slot a lookup ends: with an index where the key stands, or with -1
    -- if the key stands nowhere.
    pub lookup-Locates : (r : Option ℕ) × (lookup clean k t ≡ some r) × Locates r
    unfolding lookup
    lookup-Locates =
        let (d, hd, free) = start in
        finish _ (lookup_loop-probe t.size t k (home t.size k)) (
          probe-Ends t.size (view clean t) k t.size (home t.size k) d (home-lt t.size k positive) hd
            free)
      where
        finish :
            (r : Option (Option ℕ))
            → lookup clean k t ≡ r
            → Ends t.size (view clean t) k (home t.size k) r
            → (i : Option ℕ) × (lookup clean k t ≡ some i) × Locates i
        finish _ e (hit s hs held) = (some s, e, (hs, held))
        finish _ e (miss d free passed) =
            (none, e, not-Member t.size (home t.size) (view clean t) valid.probed k d free passed)

    -- In a valid table with a free slot a store ends. The table stays valid and counts one key more;
    -- the new key stands at a slot that was free, with its content, and every other slot is unchanged.
    pub store-Stores :
        (a : A)
        → (u : Table A) × (store clean k a t ≡ some u)
          × IsValid u
          × (u.size ≡ t.size)
          × (u.count ≡ t.count + 1)
          × ((j : ℕ) → Contains u j ↔ ((k ≡ j) ⊎ Contains t j))
          × ((s : ℕ) × (s < t.size)
              × (view clean t s ≡ none)
              × (entry_at clean u s ≡ stored k a)
              × ((i : ℕ) → s ≢ i → entry_at clean u i ≡ entry_at clean t i))
    unfolding store
    store-Stores a =
        let n = t.size in
        let (d, hd, free) = start in
        let (l, e, _) = land-Lands n (view clean t) n (home n k) d (home-lt n k positive) hd free in
        let s : ℕ = slot n (home n k) l.distance in
        let inside : s < length t.entries = rw valid.sized (mod-lt _ positive) in
        let seen : view clean (written t k a s) ≡ write (view clean t) s k =
          fun_ext (λ i. view-written t k a s i inside) in
        let one = free_count-set t.entries s k a inside (view_free t s l.free) in
        (
          written t k a s,
          store_loop-land n t k a (home n k) ∙ ap (Option.map (written t k a)) e,
          record {
            sized = length-set t.entries s _ ∙ valid.sized;
            counted = omega (arith, one, valid.counted);
            probed = rw seen (write-IsProbed n (home n) (view clean t) valid.probed k l);
          },
          refl,
          refl,
          (λ j. rw seen (Member-write n (view clean t) (home n k) k j l positive)),
          (
            s,
            mod-lt _ positive,
            l.free,
            get_or-set_self t.entries s (stored k a) (out_of_range clean) inside,
            λ i ne. get_or-set_ne t.entries s i (stored k a) (out_of_range clean) ne,
          ),
        )

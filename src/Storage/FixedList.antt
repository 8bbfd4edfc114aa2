-- ===== src/Storage/FixedList.antt =====
-- Games/list.h: a list in an array of a fixed size. The counters of DEBUG_LIST are left out.
use proof_cost_network.Base.{
  ℕ, zero, suc, ◌+◌, ◌-◌, ◌*◌, ◌/◌, ◌==◌, Option, none, some, if◌then◌else◌, ◌<◌, ◌≡◌, ◌≢◌, List,
  length, get_or, set, get_or-set_self, get_or-set_ne, arith,
}

pub record FixedList (A : Type 0) : Type 0 where
  pub size : ℕ
  pub elems : List A

module _ {A : Type 0} (junk : A) where
  unfoldable pub element_at : ℕ → FixedList A → A
  element_at i l = get_or l.elems i junk

  unfoldable pub init : FixedList A → FixedList A
  init l = record l { size = 0 }

  -- The index of the new element, which a reference stands for.
  unfoldable pub allocate_one : FixedList A → ℕ × FixedList A
  allocate_one l = (l.size, record l { size = l.size + 1 })

  unfoldable pub insert : A → FixedList A → FixedList A
  unfolding allocate_one
  insert a l = let r = allocate_one l in record r.1 { elems = set r.1.elems r.0 a }

  unfoldable pub remove_last : FixedList A → A × FixedList A
  unfolding element_at
  remove_last l = (element_at (l.size - 1) l, record l { size = l.size - 1 })

  -- The result is read through the reference, after the last element was moved there.
  unfoldable pub remove : ℕ → FixedList A → A × FixedList A
  unfolding element_at
  remove i l =
      let size = l.size - 1 in
      let moved : FixedList A = record { size = size; elems = set l.elems i (element_at size l) } in
      (element_at i moved, moved)

  unfoldable pub get_size : FixedList A → ℕ
  get_size l = l.size

  unfoldable pub set_size : ℕ → FixedList A → FixedList A
  set_size n l = record l { size = n }

  unfoldable pub swap : ℕ → ℕ → FixedList A → FixedList A
  unfolding element_at
  swap i j l = record l { elems = set (set l.elems i (element_at j l)) j (element_at i l) }

  unfoldable pub get_last : FixedList A → A
  unfolding element_at
  get_last l = element_at (l.size - 1) l

  unfoldable pub get_last2 : FixedList A → A
  unfolding element_at
  get_last2 l = element_at (l.size - 2) l

  unfoldable pub get_last3 : FixedList A → A
  unfolding element_at
  get_last3 l = element_at (l.size - 3) l

  -- The first `n` elements are copied, and the others stay.
  copy_elems : ℕ → FixedList A → List A → List A
  unfolding element_at
  copy_elems zero source elems = elems
  copy_elems (suc n) source elems = copy_elems n source (set elems n (element_at n source))

  -- The elements are copied as words of `elem_num_in_word` elements, as many words as the size needs. An
  -- element that is longer than a word makes the number 0, at which the division fails.
  unfoldable pub clone : ℕ → FixedList A → FixedList A → Option (FixedList A)
  unfolding copy_elems
  clone elem_num_in_word source l =
      let count = (source.size + elem_num_in_word - 1) / elem_num_in_word in
      if elem_num_in_word == 0
      then none
      else some (record {
        size = source.size;
        elems = copy_elems (count * elem_num_in_word) source l.elems;
      })

  -- Removing the element at an index of the list moves the last element there, leaves every other
  -- element, and returns the element that was moved in place of the one that was removed.
  pub remove-moves :
      (i : ℕ) (l : FixedList A)
      → i < l.size
      → l.size < length l.elems + 1
      → (get_size (remove i l).1 + 1 ≡ get_size l)
        × ((remove i l).0 ≡ get_last l)
        × (element_at i (remove i l).1 ≡ get_last l)
        × ((j : ℕ) → i ≢ j → element_at j (remove i l).1 ≡ element_at j l)
  unfolding remove get_size get_last element_at
  remove-moves i l inside fits =
      let here = get_or-set_self l.elems i (get_or l.elems (l.size - 1) junk) junk (omega arith) in
      (
        omega arith,
        here,
        here,
        λ j ne. get_or-set_ne l.elems i j (get_or l.elems (l.size - 1) junk) junk ne,
      )

  -- Inserting to a list with room, and removing the last element, gives the element and the size back.
  pub remove_last-insert :
      (a : A) (l : FixedList A)
      → l.size < length l.elems
      → ((remove_last (insert a l)).0 ≡ a)
        × (get_size (remove_last (insert a l)).1 ≡ get_size l)
        × ((j : ℕ) → j < l.size → element_at j (remove_last (insert a l)).1 ≡ element_at j l)
  unfolding remove_last insert allocate_one get_size element_at
  remove_last-insert a l room =
      let back : l.size + 1 - 1 ≡ l.size = omega arith in
      (
        rw back (get_or-set_self l.elems l.size a junk room),
        back,
        λ j lt. get_or-set_ne l.elems l.size j a junk (omega (arith, lt)),
      )

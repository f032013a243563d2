-- ===== src/Shared.antt =====
-- shared.go: test data that the attackers take in turn. Each call holds the mutex, so calls are atomic.
use native.Mathlib.Nat.{mod-lt, mod-eq_of_lt, mod-add-mod, mod_self, zero-add, add-zero}
use loaderbot.Prelude.{
  ℕ, zero, suc, ◌+◌, ◌%◌, ◌≤◌, ◌<◌, ◌≡◌, refl, ap, ◌∙◌, sym, Option, none, some, List, [], ◌∷◌,
  ◌++◌, arith, length, get_elem?, ltb, if◌then◌else◌, Bool-cases, inl, inr,
}

-- `Index` counts calls and is left unbounded.
pub record SharedDataSlice (A : Type 0) : Type 0 where
  pub index : ℕ
  pub items : List A

module _ {A : Type 0} where
  unfoldable pub new_shared_data_slice : List A → SharedDataSlice A
  new_shared_data_slice items = record { index = 0; items = items }

  -- `m.Index > len(m.Data)-1`, with no truncated subtraction.
  unfoldable pub wrapped : SharedDataSlice A → ℕ
  wrapped m = if ltb (length m.items) (m.index + 1) then 0 else m.index

  -- `none` is the panic of an index out of range, which leaves the mutex locked.
  unfoldable pub get : SharedDataSlice A → Option (A × SharedDataSlice A)
  get m = elim (get_elem? m.items (wrapped m)) [
    | none ↦ none
    | some d ↦ some (d, record m { index = wrapped m + 1 })
  ]

  unfoldable pub add : A → SharedDataSlice A → SharedDataSlice A
  add d m = record m { items = m.items ++ d ∷ [] }

  -- The value that the call number k gets, from 0.
  unfoldable pub get_after : ℕ → SharedDataSlice A → Option A
  get_after zero m = elim (get m) [ none ↦ none | some (d, _) ↦ some d ]
  get_after (suc k) m = elim (get m) [ none ↦ none | some (_, m') ↦ get_after k m' ]

  wrapped-mod :
      (m : SharedDataSlice A)
      → m.index ≤ length m.items
      → 0 < length m.items
      → wrapped m ≡ m.index % length m.items
  unfolding wrapped
  wrapped-mod m h p = elim (Bool-cases (ltb (length m.items) (m.index + 1))) [
    | inl e ↦
        let full : m.index ≡ length m.items = ground arith in
        rw (e, full) (sym (mod_self (length m.items)))
    | inr e ↦ rw e (sym (mod-eq_of_lt (ground arith)))
  ]

  get_elem?-some : (xs : List A) (i : ℕ) → i < length xs → (d : A) × (get_elem? xs i ≡ some d)
  get_elem?-some [] i h = absurd (omega arith)
  get_elem?-some (x ∷ xs) zero h = (x, refl)
  get_elem?-some (x ∷ xs) (suc i) h = get_elem?-some xs i (omega arith)

  wrapped-lt :
      (m : SharedDataSlice A)
      → m.index ≤ length m.items
      → 0 < length m.items
      → wrapped m < length m.items
  wrapped-lt m h p = rw (wrapped-mod m h p) (mod-lt m.index p)

  next_index :
      (m : SharedDataSlice A) (k : ℕ)
      → m.index ≤ length m.items
      → 0 < length m.items
      → (wrapped m + 1 + k) % length m.items ≡ (m.index + suc k) % length m.items
  next_index m k h p =
      let n = length m.items in
      let shift : wrapped m + 1 + k ≡ wrapped m + suc k = omega arith in
      ap (λ i. i % n) (shift ∙ ap (λ w. w + suc k) (wrapped-mod m h p))
      ∙ mod-add-mod m.index n (suc k)

  first_get :
      (m : SharedDataSlice A) (d : A)
      → get_elem? m.items (wrapped m) ≡ some d
      → get_after 0 m ≡ some d
  unfolding get_after get
  first_get m d at = ground arith

  next_get :
      (m : SharedDataSlice A) (d : A) (k : ℕ)
      → get_elem? m.items (wrapped m) ≡ some d
      → get_after (suc k) m ≡ get_after k (record m { index = wrapped m + 1 })
  unfolding get_after get
  next_get m d k at = ground arith

  get_after-mod :
      (k : ℕ) (m : SharedDataSlice A)
      → m.index ≤ length m.items
      → 0 < length m.items
      → get_after k m ≡ get_elem? m.items ((m.index + k) % length m.items)
  get_after-mod zero m h p =
      let (d, at) = get_elem?-some m.items (wrapped m) (wrapped-lt m h p) in
      first_get m d at
      ∙ sym at
      ∙ ap (get_elem? m.items)
          (wrapped-mod m h p ∙ ap (λ i. i % length m.items) (sym (add-zero m.index)))
  get_after-mod (suc k) m h p =
      let (d, at) = get_elem?-some m.items (wrapped m) (wrapped-lt m h p) in
      let lt = wrapped-lt m h p in
      next_get m d k at
      ∙ get_after-mod k (record m { index = wrapped m + 1 }) (omega arith) p
      ∙ ap (get_elem? m.items) (next_index m k h p)

  -- Call number k, from 0, on a new slice of data that is not empty gets the element k modulo the
  -- number of elements: the data are handed out in turn, over and over.
  pub get_round_robin :
      (items : List A) (k : ℕ)
      → 0 < length items
      → get_after k (new_shared_data_slice items) ≡ get_elem? items (k % length items)
  unfolding new_shared_data_slice
  get_round_robin items k p =
      get_after-mod k (record { index = 0; items = items }) (omega arith) p ∙ rw zero-add refl

-- ===== src/Layout/Place.antt =====
-- findFirstAvailableGridPlacement finds the first free place, and always finds one.
use glanceus.Prelude.{
  ℕ, zero, suc, ◌+◌, ◌-◌, ◌≤◌, ◌<◌, ◌≡◌, sym, ap, subst, ◌∙◌, true, false, not, Option, none, some,
  List, map, arith, max, Bool-cases, Option-cases, inl, inr,
}
use glanceus.Config.{ViewItem}
use glanceus.Layout.{
  GridNodeLayout, Coordinate, max_bottom, is_free, candidate_at, scan_row, scan_rows,
  find_first_available_grid_placement, safe_columns, clamp, to_positive_int, sanitize, raw_of,
}
use glanceus.Layout.Overlap.{below_is_free}

module _ (w h : ℕ) (occupied : List GridNodeLayout) where
  -- The place is free.
  abbrev FreeAt : ℕ → ℕ → Type 0
  FreeAt x y = is_free (candidate_at w h x y) occupied ≡ true

  -- A row's answer is the first free place from x on.
  abbrev FoundIn : (rounds x y : ℕ) → Option GridNodeLayout → Type 0
  FoundIn rounds x y none =
      (k : ℕ) → k < rounds → is_free (candidate_at w h (x + k) y) occupied ≡ false
  FoundIn rounds x y (some p) =
      (k : ℕ) × (k < rounds)
      × (p ≡ candidate_at w h (x + k) y)
      × FreeAt (x + k) y
      × ((j : ℕ) → j < k → is_free (candidate_at w h (x + j) y) occupied ≡ false)

  shift : (x k : ℕ) → x + 1 + k ≡ x + suc k
  shift x k = omega arith

  found_later :
      (rounds x y : ℕ) (o : Option GridNodeLayout)
      → is_free (candidate_at w h x y) occupied ≡ false
      → FoundIn rounds (x + 1) y o
      → FoundIn (suc rounds) x y o
  found_later rounds x y none busy f = none_free
    where
      none_free : (k : ℕ) → k < suc rounds → is_free (candidate_at w h (x + k) y) occupied ≡ false
      none_free zero lt = ap (λ n. is_free (candidate_at w h n y) occupied) (omega arith) ∙ busy
      none_free (suc k) lt =
          ap (λ n. is_free (candidate_at w h n y) occupied) (sym (shift x k)) ∙ f k (omega arith)
  found_later rounds x y (some p) busy (k, lt, e, free, before) = (
    suc k,
    omega arith,
    e ∙ ap (λ n. candidate_at w h n y) (shift x k),
    ap (λ n. is_free (candidate_at w h n y) occupied) (sym (shift x k)) ∙ free,
    earlier,
  )
    where
      earlier : (j : ℕ) → j < suc k → is_free (candidate_at w h (x + j) y) occupied ≡ false
      earlier zero l = ap (λ n. is_free (candidate_at w h n y) occupied) (omega arith) ∙ busy
      earlier (suc j) l =
          ap (λ n. is_free (candidate_at w h n y) occupied) (sym (shift x j))
          ∙ before j (omega arith)

  scan_row-FoundIn : (rounds x y : ℕ) → FoundIn rounds x y (scan_row w h occupied rounds x y)
  unfolding scan_row
  scan_row-FoundIn zero x y = λ k lt. elim lt [ ]
  scan_row-FoundIn (suc rounds) x y = elim (Bool-cases (is_free (candidate_at w h x y) occupied)) [
    | inl free ↦
        rw (free, scan_row)
          (
            0,
            omega arith,
            ap (λ n. candidate_at w h n y) (omega arith),
            ap (λ n. is_free (candidate_at w h n y) occupied) (omega arith) ∙ free,
            λ j l. elim l [ ],
          )
    | inr busy ↦
        rw (busy, scan_row)
          (found_later rounds x y (scan_row w h occupied rounds (x + 1) y) busy
            (scan_row-FoundIn rounds (x + 1) y))
  ]

  -- Every place of a row is taken.
  abbrev pub RowTaken : (width y : ℕ) → Type 0
  RowTaken width y = (k : ℕ) → k < width → is_free (candidate_at w h k y) occupied ≡ false

  -- A free place with every earlier one taken, row by row from `y`.
  abbrev pub IsEarliest : (width rounds y : ℕ) → GridNodeLayout → Type 0
  IsEarliest width rounds y p =
      (i : ℕ) × (k : ℕ) × (i < rounds)
      × (k < width)
      × (p ≡ candidate_at w h k (y + i))
      × FreeAt k (y + i)
      × ((j : ℕ) → j < i → RowTaken width (y + j))
      × ((j : ℕ) → j < k → is_free (candidate_at w h j (y + i)) occupied ≡ false)

  abbrev ScanResult : (width rounds y : ℕ) → Option GridNodeLayout → Type 0
  ScanResult width rounds y none = (j : ℕ) → j < rounds → RowTaken width (y + j)
  ScanResult width rounds y (some p) = IsEarliest width rounds y p

  row_none : (width y : ℕ) → scan_row w h occupied width 0 y ≡ none → RowTaken width y
  row_none width y e k lt =
      ap (λ n. is_free (candidate_at w h n y) occupied) (omega arith)
      ∙ (subst (FoundIn width 0 y) e (scan_row-FoundIn width 0 y)) k lt

  row_move : (width y z : ℕ) → y ≡ z → RowTaken width y → RowTaken width z
  row_move width y z e t = subst (RowTaken width) e t

  rows_later :
      (width rounds y : ℕ) (o : Option GridNodeLayout)
      → RowTaken width y
      → ScanResult width rounds (y + 1) o
      → ScanResult width (suc rounds) y o
  rows_later width rounds y none t f = taken
    where
      taken : (j : ℕ) → j < suc rounds → RowTaken width (y + j)
      taken zero lt = row_move width y (y + 0) (omega arith) t
      taken (suc j) lt = row_move width (y + 1 + j) (y + suc j) (shift y j) (f j (omega arith))
  rows_later width rounds y (some p) t (i, k, lt, inside, e, free, above, left) = (
    suc i,
    k,
    omega arith,
    inside,
    e ∙ ap (candidate_at w h k) (shift y i),
    subst (FreeAt k) (shift y i) free,
    taken,
    λ j l. subst (λ n. is_free (candidate_at w h j n) occupied ≡ false) (shift y i) (left j l),
  )
    where
      taken : (j : ℕ) → j < suc i → RowTaken width (y + j)
      taken zero l = row_move width y (y + 0) (omega arith) t
      taken (suc j) l = row_move width (y + 1 + j) (y + suc j) (shift y j) (above j (omega arith))

  row_found :
      (width rounds y : ℕ) (p : GridNodeLayout)
      → FoundIn width 0 y (some p)
      → IsEarliest width (suc rounds) y p
  row_found width rounds y p (k, lt, e, free, before) = (
    0,
    k,
    omega arith,
    lt,
    e ∙ (λ i. candidate_at w h (zero_add k i) (add_zero y i)),
    subst (FreeAt k) (add_zero y) (subst (λ n. FreeAt n y) (zero_add k) free),
    λ j l. elim l [ ],
    λ j l.
        subst (λ n. is_free (candidate_at w h j n) occupied ≡ false) (add_zero y)
          (subst (λ n. is_free (candidate_at w h n y) occupied ≡ false) (zero_add j) (before j l)),
  )
    where
      zero_add : (n : ℕ) → 0 + n ≡ n
      zero_add n = omega arith

      add_zero : (n : ℕ) → n ≡ n + 0
      add_zero n = omega arith

  scan_rows-ScanResult :
      (width rounds y : ℕ) → ScanResult width rounds y (scan_rows w h width occupied rounds y)
  unfolding scan_rows
  scan_rows-ScanResult width zero y = λ j lt. elim lt [ ]
  scan_rows-ScanResult width (suc rounds) y =
      elim (Option-cases (scan_row w h occupied width 0 y)) [
        | inl e ↦
            rw (e, scan_rows)
              (rows_later width rounds y (scan_rows w h width occupied rounds (y + 1))
                (row_none width y e) (scan_rows-ScanResult width rounds (y + 1)))
        | inr (p, e) ↦
            rw (e, scan_rows)
              (row_found width rounds y p
                (subst (FoundIn width 0 y) e (scan_row-FoundIn width 0 y)))
      ]

  -- Below the lowest node every place is free, so the scan ends on one.
  pub scan_rows-IsEarliest :
      (width rounds : ℕ)
      → 1 ≤ width
      → max_bottom occupied < rounds
      → (p : GridNodeLayout) × (scan_rows w h width occupied rounds 0 ≡ some p)
        × IsEarliest width rounds 0 p
  scan_rows-IsEarliest width rounds wide high =
      elim (Option-cases (scan_rows w h width occupied rounds 0)) [
        | inl e ↦ absurd (false_true (sym (full e) ∙ free))
        | inr (p, e) ↦
            (p, e, subst (ScanResult width rounds 0) e (scan_rows-ScanResult width rounds 0))
      ]
    where
      bottom : ℕ
      bottom = 0 + max_bottom occupied

      false_true : false ≡ true → ⊥
      false_true q = cc

      free : FreeAt 0 bottom
      free = ap not (below_is_free (candidate_at w h 0 bottom) occupied (omega arith))

      full :
          scan_rows w h width occupied rounds 0 ≡ none
          → is_free (candidate_at w h 0 bottom) occupied ≡ false
      full e =
          (subst (ScanResult width rounds 0) e (scan_rows-ScanResult width rounds 0))
            (max_bottom occupied) high 0 wide

abbrev pub occupied_by : List (ViewItem Coordinate) → ℕ → List GridNodeLayout
occupied_by items columns = map (λ item. sanitize (raw_of item) columns) items

-- The placement that is found is free of every sanitised item and within the grid, and every
-- earlier place, row by row, is taken: the fallback of the code is never reached.
pub find_first-IsEarliest :
    (items : List (ViewItem Coordinate)) (column_count width height : Coordinate)
    → let columns = safe_columns column_count in
      let w = clamp (to_positive_int width 4) 1 columns in
      let h = max 1 (to_positive_int height 4) in
      let occupied = occupied_by items columns in
      IsEarliest w h occupied
        (columns - w + 1)
        (max_bottom occupied + h + 1)
        0
        (find_first_available_grid_placement items column_count width height)
      × (1 ≤ w)
      × (w ≤ columns)
unfolding find_first_available_grid_placement
find_first-IsEarliest items column_count width height =
    let columns = safe_columns column_count in
    let w = clamp (to_positive_int width 4) 1 columns in
    let h = max 1 (to_positive_int height 4) in
    let occupied = occupied_by items columns in
    let (p, e, first) =
      scan_rows-IsEarliest w h occupied (columns - w + 1) (max_bottom occupied + h + 1)
        (omega arith) (omega arith) in
    (rw (e, find_first_available_grid_placement) first, omega arith, omega arith)

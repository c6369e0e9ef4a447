-- ===== src/ViewTabs/Names/Free.antt =====
-- The loop of createIndexedViewName ends, with a name that is free.
use glanceus.Prelude.{
  ℕ, zero, suc, ◌+◌, ◌==◌, ◌≤◌, ◌<◌, ◌≡◌, refl, sym, ap, subst, ◌∙◌, true, false, Option, some,
  List, [], ◌∷◌, ◌++◌, length, if◌then◌else◌, Bool-cases, inl, inr, ◌⊎◌, arith,
}
use glanceus.ViewTabs.Names.Words.{IsWord, kept, normalize-word}
use glanceus.ViewTabs.Names.{
  Name, Locale, collapse, normalize_view_name_input, same_name, has_name, is_blank,
  normalize_name_for_comparison, build_case_insensitive_name_set, is_case_insensitive_name_taken,
  indexed, first_free, or_new_view, create_indexed_view_name,
}

same_name→eq : (a b : Name) → same_name a b ≡ true → a ≡ b
same_name→eq [] [] h = refl
same_name→eq [] (y ∷ b) h = absurd (ground (arith, h))
same_name→eq (x ∷ a) [] h = absurd (ground (arith, h))
same_name→eq (x ∷ a) (y ∷ b) h = λ i. ((x≡y i) ∷ same_name→eq a b (ground (arith, h)) i)
  where
    x≡y : x ≡ y
    x≡y = ground (arith, h)

-- The names but one.
abbrev names_without : Name → List Name → List Name
names_without name [] = []
names_without name (n ∷ ns) =
    let rest = names_without name ns in if same_name n name then rest else n ∷ rest

length-names_without : (name : Name) (ns : List Name) → length (names_without name ns) ≤ length ns
length-names_without name [] = omega arith
length-names_without name (n ∷ ns) = ground (arith, length-names_without name ns)

length-names_without_has :
    (name : Name) (ns : List Name)
    → has_name name ns ≡ true
    → length (names_without name ns) < length ns
length-names_without_has name [] h = absurd (ground (arith, h))
length-names_without_has name (n ∷ ns) h =
    ground (arith, h, length-names_without name ns, length-names_without_has name ns)

has_name-names_without :
    (name other : Name) (ns : List Name)
    → same_name name other ≡ false
    → has_name other ns ≡ true
    → has_name other (names_without name ns) ≡ true
has_name-names_without name other [] d h = h
has_name-names_without name other (n ∷ ns) d h = elim (Bool-cases (same_name n name)) [
  | inl same ↦
      rw (same, names_without)
        (has_name-names_without name other ns d (
          ground
            (arith, h, subst (λ m. same_name m other ≡ false) (sym (same_name→eq n name same)) d)))
  | inr differ ↦ ground (arith, differ, h, has_name-names_without name other ns d)
]

-- Names that differ from each other and are all taken are no more than the taken ones.
module _ (f : ℕ → Name) (differ : (i j : ℕ) → i < j → same_name (f i) (f j) ≡ false) where
  pigeonhole :
      (m k : ℕ) (ns : List Name)
      → ((j : ℕ) → k ≤ j → j < k + m → has_name (f j) ns ≡ true)
      → m ≤ length ns
  pigeonhole zero k ns taken = omega arith
  pigeonhole (suc m) k ns taken =
      let less = length-names_without_has (f k) ns (taken k (omega arith) (omega arith)) in
      let rest = pigeonhole m (suc k) (names_without (f k) ns) λ j after before.
        has_name-names_without (f k) (f j) ns (differ k j (omega arith))
          (taken j (omega arith) (omega arith)) in
      omega (arith, less, rest)

-- What the code relies on: the text of a number is a word, and the lower case of a name tells the
-- numbers at its end apart.
module _ (l : Locale) (word : (n : ℕ) → IsWord (l.number_text n))
    (full : (n : ℕ) → is_blank (l.number_text n) ≡ false)
    (keeps : (p : Name) (m n : ℕ)
      → l.lower (p ++ l.number_text m) ≡ l.lower (p ++ l.number_text n)
      → m ≡ n)
    (base : Name) where
  abbrev candidate : ℕ → Name
  candidate i = normalize_name_for_comparison l (indexed l base i)

  candidate_eq : (i : ℕ) → candidate i ≡ l.lower (collapse false (kept base) ++ l.number_text i)
  unfolding normalize_name_for_comparison
  candidate_eq i = ap l.lower (normalize-word base (l.number_text i) (word i) (full i))

  candidates_differ : (i j : ℕ) → i < j → same_name (candidate i) (candidate j) ≡ false
  candidates_differ i j h = elim (Bool-cases (same_name (candidate i) (candidate j))) [
    | inl same ↦ absurd (
        not_same (
          keeps (collapse false (kept base)) i j (
            sym (candidate_eq i) ∙ same_name→eq (candidate i) (candidate j) same ∙ candidate_eq j)))
    | inr differ ↦ differ
  ]
    where
      not_same : i ≡ j → ⊥
      not_same e = omega (arith, e)

  abbrev AllTaken : List Name → ℕ → ℕ → Type 0
  AllTaken name_set k suffix =
      (j : ℕ) → suffix ≤ j → j < suffix + k → has_name (candidate j) name_set ≡ true

  abbrev IsFree : List Name → Option Name → Type 0
  IsFree name_set r =
      (name : Name) × (r ≡ some name) × (is_case_insensitive_name_taken l name_set name ≡ false)

  AllTaken-suc :
      (name_set : List Name) (k suffix : ℕ)
      → has_name (candidate suffix) name_set ≡ true
      → AllTaken name_set k (suffix + 1)
      → AllTaken name_set (suc k) suffix
  AllTaken-suc name_set k suffix taken later j after before = elim (Bool-cases (suffix == j)) [
    | inl same ↦ subst (λ i. has_name (candidate i) name_set ≡ true) (ground (arith, same)) taken
    | inr other ↦ later j (ground (arith, other)) (omega arith)
  ]

  -- The loop gives a name that is free, or every name that it tries is taken.
  first_free-cases :
      (name_set : List Name) (k suffix : ℕ)
      → IsFree name_set (first_free l name_set base k suffix) ⊎ AllTaken name_set k suffix
  unfolding first_free is_case_insensitive_name_taken
  first_free-cases name_set zero suffix = inr (λ j after before. absurd (omega arith))
  first_free-cases name_set (suc k) suffix =
      elim (Bool-cases (has_name (candidate suffix) name_set)) [
        | inl taken ↦ elim (first_free-cases name_set k (suffix + 1)) [
          | inl (name, e, free) ↦ inl (name, rw taken e, free)
          | inr later ↦ inr (AllTaken-suc name_set k suffix taken later)
        ]
        | inr free ↦ inl (indexed l base suffix, rw free refl, free)
      ]

  first_free-IsFree :
      (name_set : List Name)
      → IsFree name_set (first_free l name_set base (suc (length name_set)) 1)
  first_free-IsFree name_set = elim (first_free-cases name_set (suc (length name_set)) 1) [
    | inl free ↦ free
    | inr taken ↦ absurd (
        omega
          (arith, pigeonhole candidate candidates_differ (suc (length name_set)) 1 name_set taken))
  ]

-- Where the text of a number is a word that is not empty, and the lower case of a text tells the
-- numbers at its end apart, a name is made for a new view whatever the names of the others are,
-- and it is none of theirs, up to white space and case.
pub create_indexed_view_name_lem :
    (l : Locale) (existing : List Name) (base_label : Name)
    → ((n : ℕ) → IsWord (l.number_text n))
    → ((n : ℕ) → is_blank (l.number_text n) ≡ false)
    → ((p : Name) (m n : ℕ)
        → l.lower (p ++ l.number_text m) ≡ l.lower (p ++ l.number_text n)
        → m ≡ n)
    → (name : Name) × (create_indexed_view_name l existing base_label ≡ some name)
      × (is_case_insensitive_name_taken l (build_case_insensitive_name_set l existing) name ≡ false)
unfolding create_indexed_view_name
create_indexed_view_name_lem l existing base_label word full keeps =
    let base = or_new_view (normalize_view_name_input base_label) in
    let name_set = build_case_insensitive_name_set l existing in
    elim (Bool-cases (is_case_insensitive_name_taken l name_set base)) [
      | inl taken ↦
          let (name, e, free) = first_free-IsFree l word full keeps base name_set in
          (name, rw taken e, free)
      | inr free ↦ (base, rw free refl, free)
    ]

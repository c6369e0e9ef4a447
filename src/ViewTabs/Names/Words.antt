-- ===== src/ViewTabs/Names/Words.antt =====
-- A word at the end of a name, after a space, stays as it is when the name is normalised.
use glanceus.Prelude.{
  ◌≡◌, refl, sym, ap, ◌∙◌, Bool, true, false, [], ◌∷◌, ◌++◌, if◌then◌else◌, Bool-cases, All, inl,
  inr,
}
use glanceus.Prelude.Text.{is_space, trim, trim_start}
use mathlib.Core.List.{reverse, reverse_aux, reverse-append, reverse-reverse, append_assoc}
use glanceus.ViewTabs.Names.{Name, space, collapse, normalize_view_name_input, is_blank}

abbrev pub IsWord : Name → Type 0
IsWord = All (λ c. is_space c ≡ false)

space-is_space : is_space space ≡ true
unfolding is_space
space-is_space = refl

collapse-word : (after : Bool) (d : Name) → IsWord d → collapse after d ≡ d
unfolding collapse
collapse-word after [] w = refl
collapse-word after (c ∷ d) w = rw (w.0) (ap (λ (t : Name). c ∷ t) (collapse-word false d (w.1)))

collapse-gap :
    (after : Bool) (b d : Name)
    → IsWord d
    → collapse after (b ++ space ∷ d) ≡ collapse after (b ++ space ∷ []) ++ d
unfolding collapse
collapse-gap true [] d w = rw space-is_space (collapse-word true d w)
collapse-gap false [] d w =
    rw space-is_space (ap (λ (t : Name). space ∷ t) (collapse-word true d w))
collapse-gap true (c ∷ b) d w = elim (Bool-cases (is_space c)) [
  | inl gap ↦ rw gap (collapse-gap true b d w)
  | inr letter ↦ rw letter (ap (λ (t : Name). c ∷ t) (collapse-gap false b d w))
]
collapse-gap false (c ∷ b) d w = elim (Bool-cases (is_space c)) [
  | inl gap ↦ rw gap (ap (λ (t : Name). space ∷ t) (collapse-gap true b d w))
  | inr letter ↦ rw letter (ap (λ (t : Name). c ∷ t) (collapse-gap false b d w))
]

-- What trim leaves before the word.
abbrev pub kept : Name → Name
kept [] = []
kept (c ∷ cs) = let rest = kept cs in if is_space c then rest else c ∷ (cs ++ space ∷ [])

trim_start-letter : (e y : Name) → IsWord e → is_blank e ≡ false → trim_start (e ++ y) ≡ e ++ y
trim_start-letter [] y w h = cc
trim_start-letter (c ∷ e) y w h = rw (w.0) refl

trim_start-word : (d : Name) → IsWord d → trim_start d ≡ d
trim_start-word [] w = refl
trim_start-word (c ∷ d) w = rw (w.0) refl

trim_start-gap : (b d : Name) → IsWord d → trim_start (b ++ space ∷ d) ≡ kept b ++ d
trim_start-gap [] d w = rw space-is_space (trim_start-word d w)
trim_start-gap (c ∷ b) d w = elim (Bool-cases (is_space c)) [
  | inl gap ↦ rw (gap, kept) (trim_start-gap b d w)
  | inr letter ↦ rw (letter, kept) (ap (λ (t : Name). c ∷ t) (sym (append_assoc b (space ∷ []) d)))
]

reverse_aux-IsWord : (l r : Name) → IsWord l → IsWord r → IsWord (reverse_aux l r)
reverse_aux-IsWord [] r w v = v
reverse_aux-IsWord (c ∷ l) r w v = reverse_aux-IsWord l (c ∷ r) (w.1) (w.0, v)

reverse_aux-is_blank : (l r : Name) → is_blank r ≡ false → is_blank (reverse_aux l r) ≡ false
reverse_aux-is_blank [] r h = h
reverse_aux-is_blank (c ∷ l) r h = reverse_aux-is_blank l (c ∷ r) refl

reverse-is_blank : (d : Name) → is_blank d ≡ false → is_blank (reverse d) ≡ false
reverse-is_blank [] h = h
reverse-is_blank (c ∷ d) h = reverse_aux-is_blank d (c ∷ []) refl

trim-gap : (b d : Name) → IsWord d → is_blank d ≡ false → trim (b ++ space ∷ d) ≡ kept b ++ d
trim-gap b d w h =
    ap (λ (t : Name). reverse (trim_start (reverse t))) (trim_start-gap b d w)
    ∙ ap (λ (t : Name). reverse (trim_start t)) (reverse-append (kept b) d)
    ∙ ap reverse (
        trim_start-letter (reverse d) (reverse (kept b)) (reverse_aux-IsWord d [] w tt)
          (reverse-is_blank d h))
    ∙ ap reverse (sym (reverse-append (kept b) d))
    ∙ reverse-reverse (kept b ++ d)

collapse-kept :
    (b d : Name) → IsWord d → collapse false (kept b ++ d) ≡ collapse false (kept b) ++ d
unfolding collapse
collapse-kept [] d w = collapse-word false d w
collapse-kept (c ∷ b) d w = elim (Bool-cases (is_space c)) [
  | inl gap ↦ rw (gap, kept) (collapse-kept b d w)
  | inr letter ↦
      rw (letter, kept)
        (ap (λ (t : Name). collapse false (c ∷ t)) (append_assoc b (space ∷ []) d)
          ∙ collapse-gap false (c ∷ b) d w)
]

pub normalize-word :
    (b d : Name)
    → IsWord d
    → is_blank d ≡ false
    → normalize_view_name_input (b ++ space ∷ d) ≡ collapse false (kept b) ++ d
unfolding normalize_view_name_input
normalize-word b d w h = ap (collapse false) (trim-gap b d w h) ∙ collapse-kept b d w

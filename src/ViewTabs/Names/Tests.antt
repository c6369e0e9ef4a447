-- ===== src/ViewTabs/Names/Tests.antt =====
-- Names of new views at concrete lists.
use glanceus.Prelude.{
  ℕ, zero, suc, ◌+◌, leb, ◌≡◌, refl, ap, false, ◌&&◌, some, List, [], ◌∷◌, ◌++◌, map, length,
  length-map, length-append, if◌then◌else◌, arith,
}
use glanceus.Prelude.Text.{codes, is_space}
use glanceus.ViewTabs.Names.{
  Name, Locale, is_blank, build_case_insensitive_name_set, is_case_insensitive_name_taken,
  create_indexed_view_name,
}
use glanceus.ViewTabs.Names.Words.{IsWord}
use glanceus.ViewTabs.Names.Free.{create_indexed_view_name_lem}

abbrev lower_unit : ℕ → ℕ
lower_unit c = if leb b'A' c && leb c b'Z' then c + 32 else c

-- Tallies for digits.
abbrev tally : ℕ → Name
tally zero = b'1' ∷ []
tally (suc n) = b'1' ∷ tally n

abbrev locale : Locale
locale = record { lower = map lower_unit; number_text = tally }

tally-IsWord : (n : ℕ) → IsWord (tally n)
unfolding is_space
tally-IsWord zero = (refl, tt)
tally-IsWord (suc n) = (refl, tally-IsWord n)

tally-is_blank : (n : ℕ) → is_blank (tally n) ≡ false
tally-is_blank zero = refl
tally-is_blank (suc n) = refl

length-tally : (n : ℕ) → length (tally n) ≡ suc n
length-tally zero = refl
length-tally (suc n) = ap suc (length-tally n)

lower_keeps :
    (p : Name) (m n : ℕ) → map lower_unit (p ++ tally m) ≡ map lower_unit (p ++ tally n) → m ≡ n
lower_keeps p m n e = omega (
  arith,
  ap length e,
  length-map lower_unit (p ++ tally m),
  length-map lower_unit (p ++ tally n),
  length-append p (tally m),
  length-append p (tally n),
  length-tally m,
  length-tally n,
)

abbrev taken_names : List Name
taken_names = codes "new  view" ∷ codes " New View 11" ∷ codes "" ∷ []

-- "New View" and its first number are taken, and the second one is free.
second_free : create_indexed_view_name locale taken_names (codes " ") ≡ some (codes "New View 111")
unfolding create_indexed_view_name is_space
second_free = refl

create_indexed_view_name_lem_example :
    (name : Name) × (create_indexed_view_name locale taken_names (codes " ") ≡ some name)
    × (is_case_insensitive_name_taken locale
          (build_case_insensitive_name_set locale taken_names)
          name
        ≡ false)
create_indexed_view_name_lem_example =
    create_indexed_view_name_lem locale taken_names (codes " ") tally-IsWord tally-is_blank
      lower_keeps

-- ===== src/ViewTabs/Names.antt =====
-- dashboardViewTabs.ts: the names of new views. A name is a list of UTF-16 units. What the engine
-- gives, toLocaleLowerCase and the text of a number, is the record `Locale`.
pub mod Words
pub mod Free
mod Tests
use glanceus.Prelude.{
  ℕ, zero, suc, ◌+◌, ◌==◌, Bool, true, false, not, ◌&&◌, ◌||◌, Option, none, some, List, [], ◌∷◌,
  ◌++◌, map, filter, length, if◌then◌else◌,
}
use glanceus.Prelude.Text.{codes, is_space, trim}

abbrev pub Name : Type 0
Name = List ℕ

pub record Locale : Type 0 where
  pub lower : Name → Name
  pub number_text : ℕ → Name

abbrev pub space : ℕ
space = 32

-- replace(/\s+/g, " "): `after` says that a space has just been written.
unfoldable pub collapse : (after : Bool) → Name → Name
unfolding is_space
collapse after [] = []
collapse after (c ∷ cs) =
    let word = c ∷ collapse false cs in
    let gap = collapse true cs in if is_space c then (if after then gap else space ∷ gap) else word

-- normalizeViewNameInput.
unfoldable pub normalize_view_name_input : Name → Name
unfolding collapse is_space
normalize_view_name_input raw_name = collapse false (trim raw_name)

abbrev pub same_name : Name → Name → Bool
same_name [] [] = true
same_name (a ∷ as') (b ∷ bs) = (a == b) && same_name as' bs
same_name _ _ = false

abbrev pub has_name : Name → List Name → Bool
has_name name [] = false
has_name name (n ∷ ns) = same_name n name || has_name name ns

abbrev pub is_blank : Name → Bool
is_blank [] = true
is_blank (c ∷ cs) = false

unfoldable pub normalize_name_for_comparison : Locale → Name → Name
unfolding normalize_view_name_input
normalize_name_for_comparison l raw_name = l.lower (normalize_view_name_input raw_name)

-- buildCaseInsensitiveNameSet.
unfoldable pub build_case_insensitive_name_set : Locale → List Name → List Name
unfolding normalize_name_for_comparison
build_case_insensitive_name_set l existing =
    filter (λ n. not (is_blank n)) (map (normalize_name_for_comparison l) existing)

unfoldable pub is_case_insensitive_name_taken : Locale → List Name → Name → Bool
unfolding normalize_name_for_comparison
is_case_insensitive_name_taken l name_set candidate =
    has_name (normalize_name_for_comparison l candidate) name_set

abbrev pub indexed : Locale → Name → ℕ → Name
indexed l base suffix = base ++ space ∷ l.number_text suffix

-- The while loop of createIndexedViewName, on fuel.
unfoldable pub first_free : Locale → List Name → Name → ℕ → ℕ → Option Name
unfolding is_case_insensitive_name_taken
first_free l name_set base zero suffix = none
first_free l name_set base (suc k) suffix =
    let later = first_free l name_set base k (suffix + 1) in
    if not (is_case_insensitive_name_taken l name_set (indexed l base suffix))
    then some (indexed l base suffix)
    else later

abbrev pub or_new_view : Name → Name
or_new_view [] = codes "New View"
or_new_view (c ∷ cs) = c ∷ cs

-- createIndexedViewName: the loop tries one name more than there are taken ones.
unfoldable pub create_indexed_view_name : Locale → List Name → Name → Option Name
unfolding normalize_view_name_input build_case_insensitive_name_set first_free
create_indexed_view_name l existing base_label =
    let base = or_new_view (normalize_view_name_input base_label) in
    let name_set = build_case_insensitive_name_set l existing in
    if not (is_case_insensitive_name_taken l name_set base)
    then some base
    else first_free l name_set base (suc (length name_set)) 1

-- ===== src/Coordinator/Merge/Laws.antt =====
-- What merging a detail into a summary guarantees.
use glanceus.Prelude.{
  ◌≡◌, refl, Bool, true, false, not, Option, none, some, arith, Bool-cases, inl, inr, ◌⊎◌,
  if◌then◌else◌, sym, subst, ap, ◌∙◌,
}
use glanceus.Prelude.Int.{Num, nan, infinite, finite}
use glanceus.Prelude.Value.{Value, undefined, null, coalesce}
use glanceus.Prelude.Dict.{has}
use glanceus.Coordinator.State.{Summary, Detail, to_numeric_timestamp, ltb_Num}
use glanceus.Coordinator.Merge.{
  is_error, is_error_or_suspended, resolve_updated_at, should_write_back, stamp_or, is_not_before,
  next_field, next_last_success_at, read, written_back, merge_summary_with_detail,
}

coalesce_idem : (a b : Value) → coalesce a (coalesce a b) ≡ coalesce a b
coalesce_idem undefined b = refl
coalesce_idem null b = refl
coalesce_idem _ b = refl

next_field_idem :
    (h : Bool) (v : Value) (k : Bool) (s : Value)
    → next_field h v k (next_field h v k s) ≡ next_field h v k s
unfolding next_field
next_field_idem true v k s = refl
next_field_idem false v true s = refl
next_field_idem false v false s = refl

last_success_idem :
    (h : Bool) (v : Value) (p : Bool) (u s : Value)
    → next_last_success_at h v p u (next_last_success_at h v p u s) ≡ next_last_success_at h v p u s
unfolding next_last_success_at
last_success_idem true v p u s = refl
last_success_idem false v true u s = coalesce_idem u s
last_success_idem false v false u s = refl

if_idem : (b : Bool) (x y : Bool) → (if b then x else if b then x else y) ≡ (if b then x else y)
if_idem true x y = refl
if_idem false x y = refl

details_idem :
    (b : Bool) (m d : Value)
    → (if b then coalesce m (if b then coalesce m d else undefined) else undefined)
      ≡ (if b then coalesce m d else undefined)
details_idem true m d = coalesce_idem m d
details_idem false m d = refl

written_back_idem :
    (s : Summary) (d : Detail) (u : Value)
    → written_back (written_back s d u) d u ≡ written_back s d u
unfolding written_back
written_back_idem s d u =
    simp (coalesce_idem, next_field_idem, last_success_idem, if_idem, details_idem)

coalesce_undefined : (s : Value) → coalesce (coalesce s undefined) undefined ≡ coalesce s undefined
coalesce_undefined undefined = refl
coalesce_undefined null = refl
coalesce_undefined _ = refl

stamp_or_idem : (t : Option Num) (s : Value) → stamp_or t (stamp_or t s) ≡ stamp_or t s
stamp_or_idem none s = coalesce_undefined s
stamp_or_idem (some n) s = refl

resolve_idem :
    (v s : Value) → resolve_updated_at v (resolve_updated_at v s) ≡ resolve_updated_at v s
unfolding resolve_updated_at
resolve_idem v s = stamp_or_idem (to_numeric_timestamp v) s

ltb_Num_irrefl : (n : Num) → ltb_Num n n ≡ false
ltb_Num_irrefl nan = refl
ltb_Num_irrefl (infinite b) = refl
ltb_Num_irrefl (finite z) = ground arith

is_not_before_self : (t : Option Num) → is_not_before t t ≡ true
is_not_before_self none = refl
is_not_before_self (some n) = ap not (ltb_Num_irrefl n)

should_write_back_self : (u : Value) → should_write_back u u ≡ true
unfolding should_write_back
should_write_back_self u = is_not_before_self (to_numeric_timestamp u)

written_back-updated_at :
    (s : Summary) (d : Detail) (u : Value) → (written_back s d u).updated_at ≡ u
unfolding written_back
written_back-updated_at s d u = refl

-- A merge leaves the summary, or writes the detail back at a time that is not before its own.
pub merge_cases :
    (s : Summary) (d : Detail)
    → let u = resolve_updated_at (read "updated_at" d) s.updated_at in
      ((should_write_back u s.updated_at ≡ true)
        × (merge_summary_with_detail s d ≡ written_back s d u))
      ⊎ ((should_write_back u s.updated_at ≡ false) × (merge_summary_with_detail s d ≡ s))
unfolding merge_summary_with_detail
merge_cases s d =
    elim (Bool-cases
      (should_write_back (resolve_updated_at (read "updated_at" d) s.updated_at) s.updated_at)) [
        | inl on ↦ inl (on, rw on)
        | inr off ↦ inr (off, rw off)
      ]

-- Merging the same detail again changes nothing.
pub merge_twice :
    (s : Summary) (d : Detail)
    → merge_summary_with_detail (merge_summary_with_detail s d) d ≡ merge_summary_with_detail s d
merge_twice s d = elim (merge_cases s d) [
  | inl (on, e) ↦ rw e (again (written_back-updated_at s d u))
  | inr (off, e) ↦ rw e e
]
  where
    u : Value
    u = resolve_updated_at (read "updated_at" d) s.updated_at

    same_stamp : resolve_updated_at (read "updated_at" d) u ≡ u
    same_stamp = resolve_idem (read "updated_at" d) s.updated_at

    stamp :
        (written_back s d u).updated_at ≡ u
        → resolve_updated_at (read "updated_at" d) (written_back s d u).updated_at ≡ u
    stamp e = ap (resolve_updated_at (read "updated_at" d)) e ∙ same_stamp

    again :
        (written_back s d u).updated_at ≡ u
        → merge_summary_with_detail (written_back s d u) d ≡ written_back s d u
    again e = elim (merge_cases (written_back s d u) d) [
      | inl (on, f) ↦
          f ∙ ap (written_back (written_back s d u) d) (stamp e) ∙ written_back_idem s d u
      | inr (off, f) ↦ f
    ]

-- Where a merge does not keep the summary, an error that the detail does not name is gone with
-- the status: the error and its details unless the new status is "error", the code and the
-- interaction unless it is "error" or "suspended".
pub written_back-clears :
    (s : Summary) (d : Detail) (u : Value)
    → let m = written_back s d u in
      (has "error" d ≡ false → is_error m.status ≡ false → m.error ≡ undefined)
      × (is_error m.status ≡ false → m.error_details ≡ undefined)
      × (has "error_code" d ≡ false
          → is_error_or_suspended m.status ≡ false
          → m.error_code ≡ undefined)
      × (has "interaction" d ≡ false
          → is_error_or_suspended m.status ≡ false
          → m.interaction ≡ undefined)
unfolding written_back next_field
written_back-clears s d u = (λ h k. rw (h, k), λ k. rw k, λ h k. rw (h, k), λ h k. rw (h, k))

-- The time of a summary.
abbrev pub IsNotBefore : Value → Value → Type 0
IsNotBefore new old = is_not_before (to_numeric_timestamp new) (to_numeric_timestamp old) ≡ true

-- No merge takes a summary back in time: where both have a time, the new one is not less.
pub merge-IsNotBefore :
    (s : Summary) (d : Detail) → IsNotBefore (merge_summary_with_detail s d).updated_at s.updated_at
unfolding should_write_back
merge-IsNotBefore s d = elim (merge_cases s d) [
  | inl (on, e) ↦
      subst (λ m. IsNotBefore m.updated_at s.updated_at) (sym e)
        (subst (λ v. IsNotBefore v s.updated_at) (sym (written_back-updated_at s d _)) on)
  | inr (off, e) ↦
      subst (λ m. IsNotBefore m.updated_at s.updated_at) (sym e)
        (is_not_before_self (to_numeric_timestamp s.updated_at))
]

-- ===== src/Coordinator/Queue/Order.antt =====
-- byPriority as an order: what it compares, and that a sort by it puts the first task first.
use glanceus.Prelude.{
  ℕ, ◌≤◌, ◌<◌, ◌≡◌, ◌↔◌, ◌⊎◌, inl, inr, true, false, not, List, ◌∷◌, arith, Bool-cases, All,
  All-map,
}
use glanceus.Prelude.Int.{sub_ℕ}
use glanceus.Prelude.Sort.{sort, sort-IsSorted, All-sort}
use glanceus.Coordinator.State.{QueueTask}
use glanceus.Coordinator.Queue.{is_positive, not_after}

-- What comes first: a manual boost, then the tier, then the place in the tier, then the age.
abbrev pub Precedes : QueueTask → QueueTask → Type 0
Precedes a b =
    ((a.manual_boost ≡ true) × (b.manual_boost ≡ false))
    ⊎ ((a.manual_boost ≡ b.manual_boost)
        × ((a.priority_tier < b.priority_tier)
            ⊎ ((a.priority_tier ≡ b.priority_tier)
                × ((a.priority_order < b.priority_order)
                    ⊎ ((a.priority_order ≡ b.priority_order) × (a.enqueue_seq ≤ b.enqueue_seq))))))

not_positive-sub_ℕ : (a b : ℕ) → (not (is_positive (sub_ℕ a b)) ≡ true) ↔ (a ≤ b)
not_positive-sub_ℕ a b = ground arith

pub not_after_iff : (a b : QueueTask) → (not_after a b ≡ true) ↔ Precedes a b
unfolding not_after
not_after_iff a b = (λ h. ground arith, λ h. ground arith)

pub not_after_total : (a b : QueueTask) → (not_after a b ≡ true) ⊎ (not_after b a ≡ true)
unfolding not_after
not_after_total a b = elim (Bool-cases (not_after a b)) [
  | inl h ↦ inl h
  | inr h ↦ inr (ground arith)
]

Precedes-trans : (a b c : QueueTask) → Precedes a b → Precedes b c → Precedes a c
Precedes-trans a b c p q = ground arith

pub not_after_trans :
    (a b c : QueueTask) → not_after a b ≡ true → not_after b c ≡ true → not_after a c ≡ true
not_after_trans a b c p q =
    (not_after_iff a c).1 (Precedes-trans a b c ((not_after_iff a b).0 p) ((not_after_iff b c).0 q))

-- The first task of a sorted queue precedes every queued task.
pub sort-first :
    (ts : List QueueTask) (t : QueueTask) (rest : List QueueTask)
    → sort not_after ts ≡ t ∷ rest
    → All (λ u. Precedes t u) ts
sort-first ts t rest e = All-sort not_after (λ u. Precedes t u) ts (rw e (first, others))
  where
    sorted : All (λ u. not_after t u ≡ true) rest
    sorted = (rw e at (sort-IsSorted not_after not_after_total not_after_trans ts)).0

    first : Precedes t t
    first = ground arith

    others : All (λ u. Precedes t u) rest
    others =
        All-map (λ u. not_after t u ≡ true) (λ u. Precedes t u) (λ u h. (not_after_iff t u).0 h)
          rest sorted

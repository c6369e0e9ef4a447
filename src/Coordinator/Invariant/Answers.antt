-- ===== src/Coordinator/Invariant/Answers.antt =====
-- The answer to a request keeps the invariant: it gives its slot back once.
use glanceus.Prelude.{
  ℕ, zero, suc, ◌==◌, ◌≡◌, refl, String, str_eq, eq_iff, Bool, true, false, not, ◌&&◌, some, List,
  [], ◌∷◌, arith, if◌then◌else◌, if_rule, All, All-map, any, length, ap, ◌∙◌, get_elem?,
}
use glanceus.Prelude.Dict.{lookup}
use glanceus.Coordinator.State.{
  SourceRuntimeState, SourceUpdateCoordinator, Fetch, Detail, runtime_in, runtime_of, put_runtime,
  handle_error,
}
use glanceus.Coordinator.Events.{
  Answer, found, missing, failed, remove_at, take_answer, release_slot, resubmit, fetch_answered,
}
use glanceus.Coordinator.Snapshot.{commit_detail, is_outdated, write_detail}
use glanceus.Coordinator.Invariant.Defs.{Inv, IsQueued, runtime_in-set, put-Inv, unread-Inv}
use glanceus.Coordinator.Invariant.Pump.{pump_queue-Inv}
use glanceus.Coordinator.Invariant.Submit.{submit_sources-Inv}

module _ {ℓ} {A : Type ℓ} where
  length-remove_at :
      (xs : List A) (i : ℕ) (x : A)
      → get_elem? xs i ≡ some x
      → suc (length (remove_at xs i)) ≡ length xs
  length-remove_at [] i x e = cc
  length-remove_at (y ∷ ys) zero x e = refl
  length-remove_at (y ∷ ys) (suc i) x e = ap suc (length-remove_at ys i x e)

  remove_at-All {κ} : (P : A → Type κ) (xs : List A) (i : ℕ) → All P xs → All P (remove_at xs i)
  remove_at-All P [] i h = tt
  remove_at-All P (x ∷ xs) zero h = h.1
  remove_at-All P (x ∷ xs) (suc i) h = (h.0, remove_at-All P xs i (h.1))

  any-remove_at :
      (p : A → Bool) (xs : List A) (i : ℕ) (x : A)
      → get_elem? xs i ≡ some x
      → p x ≡ false
      → any p xs ≡ true
      → any p (remove_at xs i) ≡ true
  any-remove_at p [] i x e no_x h = cc
  any-remove_at p (y ∷ ys) zero x e no_x h = ground (arith, ap p (some_eq e))
    where
      some_eq : {a b : A} → some a ≡ some b → a ≡ b
      some_eq q = cc
  any-remove_at p (y ∷ ys) (suc i) x e no_x h = ground (arith, any-remove_at p ys i x e no_x)

-- The answer is taken: the requests that wait are as before.
pub take_answer-fetches :
    (fetch : Fetch) (answer : Answer) (c : SourceUpdateCoordinator)
    → (take_answer fetch answer c).fetches ≡ c.fetches
unfolding take_answer commit_detail runtime_of put_runtime write_detail
take_answer-fetches fetch (found detail) c = ground arith
take_answer-fetches fetch missing c = refl
take_answer-fetches fetch failed c = refl

commit_detail-Inv :
    (id : String) (detail : Detail) (request_id : ℕ) (c : SourceUpdateCoordinator)
    → Inv c
    → Inv (commit_detail id detail request_id c)
unfolding commit_detail runtime_of put_runtime write_detail
commit_detail-Inv id detail request_id c v =
    if_rule Inv (not ((runtime_of id c).active_request_id == request_id)) (λ _. kept)
      λ _.
        if_rule Inv (is_outdated detail (lookup id c.summary_by_id))
          (λ _. put-Inv c id _ (refl, refl) v) λ _. unread-Inv _ _ _ _ _ _ _ kept
  where
    kept : Inv (put_runtime id (runtime_of id c) c)
    kept = put-Inv c id _ (refl, refl) v

pub take_answer-Inv :
    (fetch : Fetch) (answer : Answer) (c : SourceUpdateCoordinator)
    → Inv c
    → Inv (take_answer fetch answer c)
unfolding take_answer handle_error
take_answer-Inv fetch (found detail) c v =
    commit_detail-Inv fetch.task.source_id detail fetch.request_id c v
take_answer-Inv fetch missing c v = v
take_answer-Inv fetch failed c v = unread-Inv c _ _ _ _ _ _ v

pub release_slot-Inv :
    (i : ℕ) (fetch : Fetch) (c : SourceUpdateCoordinator)
    → get_elem? c.fetches i ≡ some fetch
    → Inv c
    → Inv (release_slot i fetch c)
unfolding release_slot runtime_of put_runtime
release_slot-Inv i fetch c e v = record {
  positive = v.positive;
  capacity = omega arith;
  counted = omega (arith, length-remove_at c.fetches i fetch e);
  numbered = v.numbered;
  requested = remove_at-All _ c.fetches i v.requested;
  queued =
      All-map (IsQueued c.next_enqueue_seq c.source_runtime) _
        (λ (k, t) q.
          (q.0, q.1, ground (arith, runtime_in-set id k released c.source_runtime, eq_iff id k)))
        c.queue v.queued;
  waiting = λ j h. ground (
    arith,
    runtime_in-set id j released c.source_runtime,
    eq_iff id j,
    v.waiting j,
    any-remove_at
        (λ f.
          str_eq f.task.source_id j
          && (f.request_id == (runtime_in j c.source_runtime).active_request_id))
        c.fetches i fetch e,
  );
}
  where
    id : String
    id = fetch.task.source_id

    runtime : SourceRuntimeState
    runtime = runtime_in id c.source_runtime

    released : SourceRuntimeState
    released =
        if runtime.active_request_id == fetch.request_id
        then record runtime { in_flight = false; active_request_id = 0 }
        else runtime

pub resubmit-Inv :
    (now : ℕ) (fetch : Fetch) (c : SourceUpdateCoordinator) → Inv c → Inv (resubmit now fetch c)
unfolding resubmit runtime_of put_runtime
resubmit-Inv now fetch c v =
    if_rule Inv (runtime_of fetch.task.source_id c).needs_refetch
      (λ again. submit_sources-Inv now _ _ _ (put-Inv c fetch.task.source_id _ (refl, refl) v))
      λ done. pump_queue-Inv c v

pub fetch_answered-Inv :
    (now i : ℕ) (fetch : Fetch) (answer : Answer) (c : SourceUpdateCoordinator)
    → get_elem? c.fetches i ≡ some fetch
    → Inv c
    → Inv (fetch_answered now i fetch answer c)
unfolding fetch_answered
fetch_answered-Inv now i fetch answer c e v = resubmit-Inv now fetch _ (
    release_slot-Inv i fetch (take_answer fetch answer c)
      (ap (λ fs. get_elem? fs i) (take_answer-fetches fetch answer c) ∙ e)
      (take_answer-Inv fetch answer c v))

-- ===== src/Workflow/Dispatch/Ready.antt =====
-- internal/workflow/schedule.go: the ready tasks that a dispatch chooses from.
use mathlib.Core.List.Memᴰ
use agent_debug_squad.Common.{
  ℕ, ◌+◌, ◌≤◌, ◌<◌, ◌≡◌, sym, subst, ◌⊎◌, inl, inr, Bool, true, false, none, some, List, [], ◌∷◌,
  String, Memᴰ, arith, length, find_first, str_eq, eq_iff, Bool-cases, if◌then◌else◌,
}
use agent_debug_squad.Domain.Snapshot.{WorkflowSnapshot}
use agent_debug_squad.Workflow.Dispatch.{is_ready}
use agent_debug_squad.Workflow.Dispatch.Holds.{SameBut}

pub find_first-some :
    (p : String → Bool) (xs : List String) (x : String)
    → find_first p xs ≡ some x
    → Memᴰ x xs × (p x ≡ true)
unfolding find_first
find_first-some p [] x h = absurd (ground (arith, h))
find_first-some p (y ∷ ys) x h = elim (Bool-cases (p y)) [
  | inl here ↦
      let e : y ≡ x = ground (arith, h, here) in (Memᴰ.head (sym e), subst (λ k. p k ≡ true) e here)
  | inr further ↦ let (m, e) = find_first-some p ys x (rw further at h) in (Memᴰ.tail m, e)
]

pub find_first-none :
    (p : String → Bool) (xs : List String) (x : String)
    → find_first p xs ≡ none
    → Memᴰ x xs
    → p x ≡ false
unfolding find_first
find_first-none p [] x h m = elim m [ ]
find_first-none p (y ∷ ys) x h m = elim (Bool-cases (p y)) [
  | inl here ↦ absurd (ground (arith, h, here))
  | inr further ↦ elim (Memᴰ.cases_cons m) [
    | inl e ↦ subst (λ k. p k ≡ false) (sym e) further
    | inr r ↦ find_first-none p ys x (rw further at h) r
  ]
]

-- How many of the tasks are ready.
pub ready_count : WorkflowSnapshot → List String → ℕ
ready_count s [] = 0
ready_count s (id ∷ ids) = (if is_ready s id then 1 else 0) + ready_count s ids

pub ready_count-le-length :
    (s : WorkflowSnapshot) (ids : List String) → ready_count s ids ≤ length ids
unfolding ready_count
ready_count-le-length s [] = omega arith
ready_count-le-length s (id ∷ ids) = ground (arith, ready_count-le-length s ids)

module _ (id : String) (s t : WorkflowSnapshot) (same : SameBut id s t)
    (taken : is_ready t id ≡ false) where
  ready_kept : (j : String) → (is_ready t j ≡ is_ready s j) ⊎ (is_ready t j ≡ false)
  ready_kept j = elim (Bool-cases (str_eq j id)) [
    | inl is ↦ inr (subst (λ k. is_ready t k ≡ false) (sym ((eq_iff j id).0 is)) taken)
    | inr other ↦ inl (same.1 j other)
  ]

  ready_count-le : (ids : List String) → ready_count t ids ≤ ready_count s ids
  unfolding ready_count
  ready_count-le [] = omega arith
  ready_count-le (j ∷ ids) = ground (arith, ready_kept j, ready_count-le ids)

  pub ready_count-lt :
      (ids : List String)
      → Memᴰ id ids
      → is_ready s id ≡ true
      → ready_count t ids < ready_count s ids
  unfolding ready_count
  ready_count-lt [] m h = elim m [ ]
  ready_count-lt (j ∷ ids) m h = elim (Memᴰ.cases_cons m) [
    | inl e ↦
        let here = subst (λ k. is_ready t k ≡ false) e taken in
        let before = subst (λ k. is_ready s k ≡ true) e h in
        ground (arith, here, before, ready_count-le ids)
    | inr r ↦ ground (arith, ready_kept j, ready_count-lt ids r h)
  ]

-- ===== src/Config/Result.antt =====
-- internal/config: the errors of validation, one constructor for each message with its arguments.
-- Go's `error` is a result here: `ok` is nil.
use agent_debug_squad.Common.{
  ℕ, Bool, true, false, ◌≡◌, refl, ◌↔◌, inl, inr, List, [], ◌∷◌, String, Memᴰ, arith, subst, sym,
}
use agent_debug_squad.Common.Int.{ℤ}
use mathlib.Core.List.Memᴰ

pub data ConfigError : Type 0 where
  removed_condition : String → ConfigError
  version_one_loops : ConfigError
  unknown_version : ℤ → ConfigError
  name_required : ConfigError
  max_parallel_invalid : ℤ → ConfigError
  task_timeout_invalid : ℤ → ConfigError
  no_tasks : ConfigError
  on_uncertain_invalid : String → ConfigError
  threshold_invalid : ConfigError
  unsafe_task : String → ConfigError
  unsafe_loop : String → ConfigError
  max_iterations_invalid : String → ℤ → ConfigError
  own_parent : String → ConfigError
  undeclared_parent : String → String → ConfigError
  parent_cycle : String → String → ConfigError
  agent_required : String → ConfigError
  unknown_agent : String → String → ConfigError
  agent_conflict : String → String → String → ConfigError
  prompt_required : String → ConfigError
  undeclared_loop : String → String → ConfigError
  timeout_invalid : String → ℤ → ConfigError
  too_few_verdicts : String → ℕ → ConfigError
  unsafe_verdict : String → String → ConfigError
  reserved_verdict : String → ConfigError
  needs_itself : String → ConfigError
  unknown_dependency : String → String → ConfigError
  repeated_dependency : String → String → ConfigError
  min_dependencies_invalid : String → ℕ → ℤ → ConfigError
  no_members : String → ConfigError
  unrelated_loops : String → String → String → String → ConfigError
  boundary_cycle : String → String → ConfigError
  dependency_cycle : String → ConfigError
  control_requires : String → ConfigError
  control_action : String → String → ConfigError
  control_undeclared : String → String → ConfigError
  control_incomparable : String → String → String → ConfigError
  exhaustion_without_control : String → ConfigError
  exhaustion_invalid : String → ConfigError

pub data Result : Type 0 where
  ok : Result
  err : ConfigError → Result

infixl 5 ◌>>◌
-- `if err := a; err != nil { return err }; b`.
abbrev pub ◌>>◌ : Result → Result → Result
ok >> b = b
err e >> b = err e

-- `if test { return error }`.
abbrev pub reject : Bool → ConfigError → Result
reject true e = err e
reject false e = ok

-- A loop that returns the first error.
abbrev pub each {ℓ} : {A : Type ℓ} → (A → Result) → List A → Result
each check [] = ok
each check (x ∷ xs) = check x >> each check xs

pub >>-ok_iff : (a b : Result) → ((a >> b) ≡ ok) ↔ ((a ≡ ok) × (b ≡ ok))
>>-ok_iff ok b = (λ h. (refl, h), λ h. h.1)
>>-ok_iff (err e) b = (λ h. absurd (ground (arith, h)), λ h. absurd (ground (arith, h.0)))

pub reject-ok_iff : (test : Bool) (e : ConfigError) → (reject test e ≡ ok) ↔ (test ≡ false)
reject-ok_iff true e = (λ h. absurd (ground (arith, h)), λ h. absurd (ground (arith, h)))
reject-ok_iff false e = (λ h. refl, λ h. refl)

pub each-ok_iff {ℓ} :
    {A : Type ℓ} (check : A → Result) (xs : List A)
    → (each check xs ≡ ok) ↔ ((x : A) → Memᴰ x xs → check x ≡ ok)
each-ok_iff check [] = (λ h x m. elim m [ ], λ h. refl)
each-ok_iff check (y ∷ xs) = (
  λ h x m.
      let (here, rest) = (>>-ok_iff (check y) (each check xs)).0 h in
      elim (Memᴰ.cases_cons m) [
        | inl e ↦ subst (λ k. check k ≡ ok) (sym e) here
        | inr r ↦ (each-ok_iff check xs).0 rest x r
      ],
  λ h.
      (>>-ok_iff (check y) (each check xs)).1
        (h y (Memᴰ.head refl), (each-ok_iff check xs).1 (λ x m. h x (Memᴰ.tail m))),
)

-- Three tests in a row, and what follows them.
pub reject_three :
    (a b c : Bool) (x y z : ConfigError) (rest : Result)
    → (reject a x >> reject b y >> reject c z >> rest) ≡ ok
    → (a ≡ false) × (b ≡ false) × (c ≡ false) × (rest ≡ ok)
reject_three true b c x y z rest h = absurd (ground (arith, h))
reject_three false true c x y z rest h = absurd (ground (arith, h))
reject_three false false true x y z rest h = absurd (ground (arith, h))
reject_three false false false x y z rest h = (refl, refl, refl, h)

-- A loop that returns the error of the first element that a test rejects.
abbrev pub reject_each {ℓ} : {A : Type ℓ} → (A → Bool) → (A → ConfigError) → List A → Result
reject_each test error xs = each (λ x. reject (test x) (error x)) xs

pub reject_each-ok {ℓ} :
    {A : Type ℓ} (test : A → Bool) (error : A → ConfigError) (xs : List A) (x : A)
    → reject_each test error xs ≡ ok
    → Memᴰ x xs
    → test x ≡ false
reject_each-ok test error xs x h m =
    (reject-ok_iff (test x) (error x)).0 ((each-ok_iff (λ y. reject (test y) (error y)) xs).0 h x m)

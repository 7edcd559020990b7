-- ===== src/Attribution/Usage.antt =====
-- The calls of `Add` of plugin/src/samplers/papyrus_attribution.cpp, one after the other.
use text.Mathlib.Text.{◌==◌}
use text.Mathlib.TextEquality.{eq_iff}
use skygraph.Prelude.{
  ℕ, ◌+◌, ◌%◌, ◌^◌, ◌≡◌, refl, ap, ◌∙◌, String, Bool, true, false, ◌||◌, ◌&&◌, not, List, [], ◌∷◌,
  if◌then◌else◌, arith, Bool-cases, inl, inr,
}
use skygraph.Attribution.{Table, is_zero, bump, add}

-- The time and the calls of a name; nothing for a name that is not there.
abbrev pub time_of : String → Table → ℕ
time_of n [] = 0
time_of n (e ∷ t) = if e.name == n then e.total_us else time_of n t

abbrev pub calls_of : String → Table → ℕ
calls_of n [] = 0
calls_of n (e ∷ t) = if e.name == n then e.calls_in_window else calls_of n t

unfoldable pub add_all : Table → List (String × ℕ) → Table
unfolding add
add_all t [] = t
add_all t ((name, us) ∷ cs) = add_all (add t name us) cs

-- The calls that count for a name.
abbrev pub counts : String → String → ℕ → Bool
counts n name us = name == n && not (is_zero us)

abbrev pub time_added : String → List (String × ℕ) → ℕ
time_added n [] = 0
time_added n ((name, us) ∷ cs) = (if name == n then us else 0) + time_added n cs

abbrev pub calls_added : String → List (String × ℕ) → ℕ
calls_added n [] = 0
calls_added n ((name, us) ∷ cs) = (if counts n name us then 1 else 0) + calls_added n cs

time_of-bump :
    (n name : String) (us : ℕ) (t : Table)
    → time_of n (bump name us t) % 2 ^ 64 ≡ (time_of n t + (if name == n then us else 0)) % 2 ^ 64
unfolding bump
time_of-bump n name us [] = ground (arith, eq_iff name n)
time_of-bump n name us (e ∷ t) =
    ground (arith, eq_iff name n, eq_iff e.name n, eq_iff e.name name, time_of-bump n name us t)

calls_of-bump :
    (n name : String) (us : ℕ) (t : Table)
    → calls_of n (bump name us t) % 2 ^ 64 ≡ (calls_of n t + (if name == n then 1 else 0)) % 2 ^ 64
unfolding bump
calls_of-bump n name us [] = ground (arith, eq_iff name n)
calls_of-bump n name us (e ∷ t) =
    ground (arith, eq_iff name n, eq_iff e.name n, eq_iff e.name name, calls_of-bump n name us t)

add_skip :
    (t : Table) (name : String) (us : ℕ) → (name == "" || is_zero us) ≡ true → add t name us ≡ t
unfolding add
add_skip t name us e = rw (e, add) refl

add_bump :
    (t : Table) (name : String) (us : ℕ)
    → (name == "" || is_zero us) ≡ false
    → add t name us ≡ bump name us t
unfolding add
add_bump t name us e = rw (e, add) refl

pub time_of-add :
    (n : String) (t : Table) (name : String) (us : ℕ)
    → (n == "") ≡ false
    → time_of n (add t name us) % 2 ^ 64 ≡ (time_of n t + (if name == n then us else 0)) % 2 ^ 64
time_of-add n t name us h = elim (Bool-cases (name == "" || is_zero us)) [
  | inl e ↦
      ap (λ u. time_of n u % 2 ^ 64) (add_skip t name us e)
      ∙ ground (arith, eq_iff name n, eq_iff name "", eq_iff n "")
  | inr e ↦ ap (λ u. time_of n u % 2 ^ 64) (add_bump t name us e) ∙ time_of-bump n name us t
]

calls_of-add :
    (n : String) (t : Table) (name : String) (us : ℕ)
    → (n == "") ≡ false
    → calls_of n (add t name us) % 2 ^ 64
      ≡ (calls_of n t + (if counts n name us then 1 else 0)) % 2 ^ 64
calls_of-add n t name us h = elim (Bool-cases (name == "" || is_zero us)) [
  | inl e ↦
      ap (λ u. calls_of n u % 2 ^ 64) (add_skip t name us e)
      ∙ ground (arith, eq_iff name n, eq_iff name "", eq_iff n "")
  | inr e ↦
      ap (λ u. calls_of n u % 2 ^ 64) (add_bump t name us e)
      ∙ calls_of-bump n name us t
      ∙ ground (arith, eq_iff name n, eq_iff name "")
]

-- After any calls of `Add`, a script (with a name) has the time that it had and all the times that
-- were added under its name, and as many calls more as there were such times above zero, each modulo
-- 2^64; calls with an empty name or no time count for nobody.
pub add_all_lem :
    (n : String) (t : Table) (cs : List (String × ℕ))
    → (n == "") ≡ false
    → (time_of n (add_all t cs) % 2 ^ 64 ≡ (time_of n t + time_added n cs) % 2 ^ 64)
      × (calls_of n (add_all t cs) % 2 ^ 64 ≡ (calls_of n t + calls_added n cs) % 2 ^ 64)
unfolding add_all
add_all_lem n t [] h = (omega arith, omega arith)
add_all_lem n t ((name, us) ∷ cs) h =
    let (p, q) = add_all_lem n (add t name us) cs h in
    (omega (arith, p, time_of-add n t name us h), omega (arith, q, calls_of-add n t name us h))

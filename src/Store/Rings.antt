-- ===== src/Store/Rings.antt =====
-- `PushCapped` of viewer/src/state/telemetry_store.h: a queue that forgets its oldest entries.
use skygraph.Prelude.{
  ℕ, zero, suc, ◌+◌, ◌-◌, ◌≤◌, ◌≡◌, refl, sym, ap, ◌∙◌, List, [], ◌∷◌, ◌++◌, ltb, if◌then◌else◌,
  length, length-append, length-drop, drop, arith, subst, Bool-cases, inl, inr,
}

module _ {ℓ} {A : Type ℓ} where
  -- `while (a_q.size() > a_cap) a_q.pop_front()`
  unfoldable pub pop_while_above : ℕ → List A → List A
  pop_while_above size [] = []
  pop_while_above size (x ∷ q) =
      let rest = pop_while_above size q in if ltb size (length (x ∷ q)) then rest else x ∷ q

  unfoldable pub push_capped : List A → A → ℕ → List A
  unfolding pop_while_above
  push_capped q v size = pop_while_above size (q ++ v ∷ [])

  -- The newest `size` entries.
  abbrev pub newest : ℕ → List A → List A
  newest size q = drop (length q - size) q

module _ {A : Type 0} where
  drop-append : (n : ℕ) (xs ys : List A) → n ≤ length xs → drop n xs ++ ys ≡ drop n (xs ++ ys)
  drop-append zero xs ys h = refl
  drop-append (suc n) [] ys h = elim h [ ]
  drop-append (suc n) (x ∷ xs) ys h = drop-append n xs ys (omega (arith, h))

  drop-nil : (n : ℕ) → drop {A = A} n [] ≡ []
  drop-nil zero = refl
  drop-nil (suc n) = refl

  drop-drop : (a b : ℕ) (xs : List A) → drop a (drop b xs) ≡ drop (b + a) xs
  drop-drop a zero xs = ap (λ n. drop n xs) (omega arith)
  drop-drop a (suc b) [] = drop-nil a ∙ sym (drop-nil (suc b + a))
  drop-drop a (suc b) (x ∷ xs) =
      drop-drop a b xs ∙ ap (λ n. drop n (x ∷ xs)) {x = suc (b + a)} {y = suc b + a} (omega arith)

  pop_while_above_lem : (size : ℕ) (q : List A) → pop_while_above size q ≡ newest size q
  unfolding pop_while_above
  pop_while_above_lem size [] = ap (λ n. drop n []) {x = 0} {y = 0 - size} (omega arith)
  pop_while_above_lem size (x ∷ q) = elim (Bool-cases (ltb size (length (x ∷ q)))) [
    | inl e ↦
        let n : suc (length q) - size ≡ suc (length q - size) = ground arith in
        rw (e, pop_while_above) (pop_while_above_lem size q ∙ ap (λ n. drop n (x ∷ q)) (sym n))
    | inr e ↦
        let n : suc (length q) - size ≡ 0 = ground arith in
        rw (e, pop_while_above) (ap (λ n. drop n (x ∷ q)) (sym n))
  ]

  pub push_capped_lem :
      (q : List A) (v : A) (size : ℕ) → push_capped q v size ≡ newest size (q ++ v ∷ [])
  unfolding push_capped
  push_capped_lem q v size = pop_while_above_lem size (q ++ v ∷ [])

  pub length-newest : (size : ℕ) (q : List A) → length (newest size q) ≤ size
  length-newest size q = omega (arith, length-drop (length q - size) q)

  pub length-push_capped : (q : List A) (v : A) (size : ℕ) → length (push_capped q v size) ≤ size
  length-push_capped q v size =
      subst (λ r. length r ≤ size) (sym (push_capped_lem q v size))
        (length-newest size (q ++ v ∷ []))

  -- Forgetting before a push is no different from forgetting after it.
  pub newest-append :
      (size : ℕ) (q r : List A) → newest size (newest size q ++ r) ≡ newest size (q ++ r)
  newest-append size q r =
      let n = length q - size in
      ap (newest size) (drop-append n q r (omega arith))
      ∙ drop-drop (length (drop n (q ++ r)) - size) n (q ++ r)
      ∙ ap (λ k. drop k (q ++ r)) (omega (arith, length-drop n (q ++ r), length-append q r))

-- ===== src/Ring/Threads/Consumer.antt =====
-- Each step of the consumer keeps the invariant.
use skygraph.Prelude.{
  ℕ, suc, ◌+◌, ◌%◌, ◌^◌, ◌≤◌, ◌<◌, ◌≡◌, refl, sym, subst, ◌∙◌, false, Option, some, List, [], ◌∷◌,
  ◌++◌, arith, ◌==◌, ==_iff, length, get_elem?, set, get_elem?-set_ne, Bool-cases, inl, inr,
}
use skygraph.Ring.{Ring, size_mod, add_size, slot, leave}
use skygraph.Ring.Contents.{Holds, Holds-release, slot_past}
use skygraph.Ring.Threads.{
  PushPc, ready, has_head, has_both, wrote, PopPc, idle, has_tail, has_ends, holding, pop_step,
  from_option,
}
use skygraph.Ring.Threads.Invariant.{Shared, PushOk, Kept, slot_at, Shared-write}

module _ {A : Type 0} where
  -- The move out of the oldest slot does not touch the slot that the producer has written.
  PushOk-take :
      (p : PushPc A) (r : Ring A) (k c : ℕ) (xs : List A) (y : A)
      → 0 < length xs
      → PushOk p r k c xs
      → PushOk p (record r { slots = set r.slots (c % 2 ^ k) y }) k c xs
  PushOk-take ready r k c xs y lt w = w
  PushOk-take (has_head x h) r k c xs y lt w = w
  PushOk-take (has_both x h t) r k c xs y lt w = w
  PushOk-take (wrote x h) r k c xs y lt (e, room, g) = (
    e,
    room,
    get_elem?-set_ne r.slots (c % 2 ^ k) ((c + length xs) % 2 ^ k) y
          (λ same. slot_past (2 ^ k) c (c + length xs) (omega arith) (omega arith) (sym same))
        ∙ g,
  )

  PushOk-tail :
      (p : PushPc A) (r : Ring A) (k c t : ℕ) (y : A) (ys : List A)
      → PushOk p r k c (y ∷ ys)
      → PushOk p (record r { tail = t }) k (suc c) ys
  PushOk-tail ready r k c t y ys w = w
  PushOk-tail (has_head x h) r k c t y ys w = w
  PushOk-tail (has_both x h _) r k c t y ys w = omega arith
  PushOk-tail (wrote x h) r k c t y ys (e, room, g) =
      let m : c + suc (length ys) ≡ suc c + length ys = omega arith in
      (e, omega arith, subst (λ (i : ℕ). get_elem? r.slots (i % 2 ^ k) ≡ some x) m g)

  Shared-tail :
      (r : Ring A) (k c : ℕ) (y : A) (ys : List A)
      → Shared r k c (y ∷ ys)
      → Shared (record r { tail = add_size r.tail 1 }) k (suc c) ys
  Shared-tail r k c y ys v = record {
    power = v.power;
    small = v.small;
    masked = v.masked;
    room = v.room;
    tail_at = omega (arith, v.tail_at);
    head_at = omega (arith, v.head_at);
    fits = omega (arith, v.fits);
  }

  -- What a step of the consumer leaves: what it returned, and the invariant for the rest.
  abbrev pub After : Ring A × PopPc A × Option A → PushPc A → ℕ → List A → Type 0
  After (r', q', out) p k xs =
      (c' : ℕ) × (xs' : List A) × (xs ≡ from_option out ++ xs') × Kept r' p q' k c' xs'

  pub leave-at :
      (moved : A → A) (slots : List A) (i : ℕ) (y : A)
      → get_elem? slots i ≡ some y
      → leave moved slots i ≡ set slots i (moved y)
  leave-at moved slots i y e = rw (e, leave)

  module _ (moved : A → A) (p : PushPc A) where
    take-Kept :
        (r : Ring A) (k c t h n : ℕ) (xs : List A)
        → Shared r k c xs
        → t ≡ r.tail
        → h ≡ (c + n) % size_mod
        → n ≤ length xs
        → Holds r.slots (2 ^ k) c xs
        → PushOk p r k c xs
        → (t == h) ≡ false
        → After (pop_step moved r (has_ends t h)) p k xs
    unfolding pop_step
    take-Kept r k c t h n [] v e l le hs w ne =
        absurd (ground (arith, v.tail_at, (==_iff t h).1 (omega (arith, v.tail_at))))
    take-Kept r k c t h n (y ∷ ys) v e l le hs w ne =
        let at : slot r t ≡ c % 2 ^ k = slot_at v t c (e ∙ v.tail_at) in
        rw (ne, at, leave-at moved r.slots (c % 2 ^ k) y hs.0, hs.0)
          (
            c,
            y ∷ ys,
            refl,
            (
              Shared-write v _ (moved y),
              (
                e,
                (
                  y,
                  ys,
                  refl,
                  refl,
                  Holds-release r.slots (2 ^ k) (suc c) c ys (moved y) (omega arith)
                      (omega (arith, v.fits)) hs.1,
                ),
              ),
              PushOk-take p r k c (y ∷ ys) (moved y) (omega arith) w,
            ),
          )

    pub pop_step-After :
        (q : PopPc A) (r : Ring A) (k c : ℕ) (xs : List A)
        → Kept r p q k c xs
        → After (pop_step moved r q) p k xs
    unfolding pop_step
    pop_step-After idle r k c xs (v, h, w) = (c, xs, refl, (v, (refl, h), w))
    pop_step-After (has_tail t) r k c xs (v, (e, h), w) =
        (c, xs, refl, (v, (e, (length xs, v.head_at, omega arith), h), w))
    pop_step-After (has_ends t hd) r k c xs (v, (e, (n, l, le), h), w) =
        elim (Bool-cases (t == hd)) [
          | inl same ↦ rw same (c, xs, refl, (v, h, w))
          | inr ne ↦ take-Kept r k c t hd n xs v e l le h w ne
        ]
    pop_step-After (holding t out) r k c xs (v, (e, (y, ys, cut, o, h)), w) =
        rw (e, o)
          (
            suc c,
            ys,
            cut,
            (
              Shared-tail r k c y ys (subst (λ l. Shared r k c l) cut v),
              h,
              PushOk-tail p r k c _ y ys (subst (λ l. PushOk p r k c l) cut w),
            ),
          )

-- ===== src/Ring/Threads/Invariant.antt =====
-- The invariant of one producer and the consumer, and that each of their steps keeps it.
use skygraph.Prelude.{
  ℕ, suc, ◌+◌, ◌-◌, ◌%◌, ◌^◌, ◌≤◌, ◌<◌, ◌≡◌, refl, sym, subst, ◌∙◌, ap, some, List, [], ◌∷◌, ◌++◌,
  arith, leb, length, get_elem?, set, length-set, length-append, get_elem?-set_self, Bool-cases,
  inl, inr, append-nil,
}
use native.Mathlib.Nat.{one-le-pow, mod-lt}
use skygraph.Ring.{Ring, size_mod, add_size, sub_size, slot}
use skygraph.Ring.Capacity.{pow_le}
use skygraph.Ring.Contents.{Holds, Holds-set, Holds-snoc, slot_of_wrapped}
use skygraph.Ring.Threads.{
  PushPc, ready, has_head, has_both, wrote, PopPc, idle, has_tail, has_ends, holding, push_start,
  push_step, from_option,
}

-- `c` records were popped, and `xs` were accepted and not popped.
pub record Shared {A : Type 0} (r : Ring A) (k c : ℕ) (xs : List A) : Type 0 where
  pub power : r.capacity ≡ 2 ^ k
  pub small : k < 64
  pub masked : r.mask ≡ 2 ^ k - 1
  pub room : length r.slots ≡ 2 ^ k
  pub tail_at : r.tail ≡ c % size_mod
  pub head_at : r.head ≡ (c + length xs) % size_mod
  pub fits : length xs ≤ 2 ^ k

module _ {A : Type 0} where
  abbrev pub PushOk : PushPc A → Ring A → ℕ → ℕ → List A → Type 0
  PushOk ready r k c xs = Unit
  PushOk (has_head x h) r k c xs = h ≡ r.head
  PushOk (has_both x h t) r k c xs = (h ≡ r.head) × (length xs ≤ sub_size h t)
  PushOk (wrote x h) r k c xs =
      (h ≡ r.head) × (length xs < 2 ^ k) × (get_elem? r.slots ((c + length xs) % 2 ^ k) ≡ some x)

  abbrev pub PopOk : PopPc A → Ring A → ℕ → ℕ → List A → Type 0
  PopOk idle r k c xs = Holds r.slots (2 ^ k) c xs
  PopOk (has_tail t) r k c xs = (t ≡ r.tail) × Holds r.slots (2 ^ k) c xs
  PopOk (has_ends t h) r k c xs =
      (t ≡ r.tail)
      × ((n : ℕ) × (h ≡ (c + n) % size_mod) × (n ≤ length xs))
      × Holds r.slots (2 ^ k) c xs
  PopOk (holding t out) r k c xs =
      (t ≡ r.tail)
      × ((y : A) × (ys : List A) × (xs ≡ y ∷ ys)
          × (out ≡ some y)
          × Holds r.slots (2 ^ k) (suc c) ys)

  -- A write to the slot that comes next leaves what the consumer relies on.
  PopOk-write :
      (q : PopPc A) (r : Ring A) (k c : ℕ) (xs : List A) (x : A)
      → length xs < 2 ^ k
      → PopOk q r k c xs
      → PopOk q (record r { slots = set r.slots ((c + length xs) % 2 ^ k) x }) k c xs
  PopOk-write idle r k c xs x lt h =
      Holds-set r.slots (2 ^ k) c (c + length xs) xs x (omega arith) (omega arith) h
  PopOk-write (has_tail t) r k c xs x lt (e, h) =
      (e, Holds-set r.slots (2 ^ k) c (c + length xs) xs x (omega arith) (omega arith) h)
  PopOk-write (has_ends t hd) r k c xs x lt (e, n, h) =
      (e, n, Holds-set r.slots (2 ^ k) c (c + length xs) xs x (omega arith) (omega arith) h)
  PopOk-write (holding t out) r k c xs x lt (e, (y, ys, cut, o, h)) =
      let m : length xs ≡ suc (length ys) = ap length cut in
      (
        e,
        (
          y,
          ys,
          cut,
          o,
          Holds-set r.slots (2 ^ k) (suc c) (c + length xs) ys x (omega arith) (omega arith) h,
        ),
      )

  -- The producer publishes the record that it wrote.
  PopOk-grow :
      (q : PopPc A) (r : Ring A) (k c : ℕ) (xs : List A) (x : A) (hd : ℕ)
      → get_elem? r.slots ((c + length xs) % 2 ^ k) ≡ some x
      → PopOk q r k c xs
      → PopOk q (record r { head = hd }) k c (xs ++ x ∷ [])
  PopOk-grow idle r k c xs x hd g h = Holds-snoc r.slots (2 ^ k) c xs x h g
  PopOk-grow (has_tail t) r k c xs x hd g (e, h) = (e, Holds-snoc r.slots (2 ^ k) c xs x h g)
  PopOk-grow (has_ends t _) r k c xs x hd g (e, (n, l, le), h) =
      (e, (n, l, omega (arith, length-append xs (x ∷ []))), Holds-snoc r.slots (2 ^ k) c xs x h g)
  PopOk-grow (holding t out) r k c xs x hd g (e, (y, ys, cut, o, h)) =
      let m : c + length xs ≡ suc c + length ys = omega (arith, ap length cut) in
      (
        e,
        (
          y,
          ys ++ x ∷ [],
          ap (λ l. l ++ x ∷ []) cut,
          o,
          Holds-snoc r.slots (2 ^ k) (suc c) ys x h
              (subst (λ (i : ℕ). get_elem? r.slots (i % 2 ^ k) ≡ some x) m g),
        ),
      )

  PopOk-drop :
      (q : PopPc A) (r : Ring A) (k c d : ℕ) (xs : List A)
      → PopOk q r k c xs
      → PopOk q (record r { dropped = d }) k c xs
  PopOk-drop idle r k c d xs h = h
  PopOk-drop (has_tail t) r k c d xs h = h
  PopOk-drop (has_ends t hd) r k c d xs h = h
  PopOk-drop (holding t out) r k c d xs h = h

  -- After a step of either side: what waits now, how many were popped, and the invariant.
  abbrev pub Kept : Ring A → PushPc A → PopPc A → ℕ → ℕ → List A → Type 0
  Kept r p q k c xs = Shared r k c xs × PopOk q r k c xs × PushOk p r k c xs

  pub push_start-Kept :
      (x : A) (r : Ring A) (p : PushPc A) (q : PopPc A) (k c : ℕ) (xs : List A)
      → Kept r p q k c xs
      → Kept r (push_start x r p) q k c xs
  unfolding push_start
  push_start-Kept x r ready q k c xs v = (v.0, v.1, refl)
  push_start-Kept x r (has_head y h) q k c xs v = v
  push_start-Kept x r (has_both y h t) q k c xs v = v
  push_start-Kept x r (wrote y h) q k c xs v = v

  module _ {r : Ring A} {k c : ℕ} {xs : List A} (v : Shared r k c xs) where
    pub bounds : (1 ≤ 2 ^ k) × (2 ^ k ≤ 2 ^ 63)
    bounds = (one-le-pow k 2 (omega arith), pow_le k 63 (omega (arith, v.small)))

    count_now : sub_size r.head r.tail ≡ length xs
    count_now = omega (arith, bounds, v.head_at, v.tail_at, v.fits)

    pub slot_at : (i j : ℕ) → i ≡ j % size_mod → slot r i ≡ j % 2 ^ k
    slot_at i j e = rw (v.masked, e) (slot_of_wrapped k j v.small)

    Shared-drop : (d : ℕ) → Shared (record r { dropped = d }) k c xs
    Shared-drop d = record {
      power = v.power;
      small = v.small;
      masked = v.masked;
      room = v.room;
      tail_at = v.tail_at;
      head_at = v.head_at;
      fits = v.fits;
    }

    pub Shared-write : (i : ℕ) (x : A) → Shared (record r { slots = set r.slots i x }) k c xs
    Shared-write i x = record {
      power = v.power;
      small = v.small;
      masked = v.masked;
      room = length-set r.slots i x ∙ v.room;
      tail_at = v.tail_at;
      head_at = v.head_at;
      fits = v.fits;
    }

    Shared-grow :
        (x : A)
        → length xs < 2 ^ k
        → Shared (record r { head = add_size r.head 1 }) k c (xs ++ x ∷ [])
    Shared-grow x lt = record {
      power = v.power;
      small = v.small;
      masked = v.masked;
      room = v.room;
      tail_at = v.tail_at;
      head_at = omega (arith, v.head_at, length-append xs (x ∷ []));
      fits = omega (arith, length-append xs (x ∷ []));
    }

    pub push_step-Kept :
        (p : PushPc A) (q : PopPc A)
        → PopOk q r k c xs
        → PushOk p r k c xs
        → let (r', p', out) = push_step r p in
          (xs' : List A) × (xs' ≡ xs ++ from_option out) × Kept r' p' q k c xs'
    unfolding push_step
    push_step-Kept ready q h w = (xs, sym (append-nil xs), (v, h, tt))
    push_step-Kept (has_head x hd) q h w =
        (xs, sym (append-nil xs), (v, h, (w, omega (arith, count_now))))
    push_step-Kept (has_both x hd t) q h w = elim (Bool-cases (leb r.capacity (sub_size hd t))) [
      | inl full ↦ rw full (xs, sym (append-nil xs), (Shared-drop _, PopOk-drop q r k c _ xs h, tt))
      | inr free ↦
          let lt : length xs < 2 ^ k = ground (arith, v.power) in
          let at : slot r hd ≡ (c + length xs) % 2 ^ k =
            slot_at hd (c + length xs) (w.0 ∙ v.head_at) in
          rw (free, at)
            (
              xs,
              sym (append-nil xs),
              (
                Shared-write _ x,
                PopOk-write q r k c xs x lt h,
                (
                  w.0,
                  lt,
                  get_elem?-set_self r.slots _ x
                      (omega (arith, v.room, mod-lt (c + length xs) {m = 2 ^ k} (omega arith))),
                ),
              ),
            )
    ]
    push_step-Kept (wrote x hd) q h (e, lt, g) =
        rw e (xs ++ x ∷ [], refl, (Shared-grow x lt, PopOk-grow q r k c xs x _ g h, tt))

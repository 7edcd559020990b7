-- ===== src/Ring/Threads.antt =====
-- `TryPush` and `TryPop` one shared access at a time, run by threads that interleave in any order:
-- one consumer (the writer thread) and producers numbered from 0. Accesses take effect in one
-- order for all threads; a write of a slot is one step.
mod Invariant
mod Consumer
pub mod Single
pub mod Race
use skygraph.Prelude.{
  ℕ, Bool, Option, none, some, List, [], ◌∷◌, ◌++◌, leb, ◌==◌, if◌then◌else◌, get_elem?, set, ◌+◌,
}
use skygraph.Ring.{Ring, add_size, sub_size, slot, leave}

module _ (A : Type 0) where
  -- Where a thread stands inside `TryPush`, with its local variables.
  pub data PushPc : Type 0 where
    ready : PushPc
    has_head : A → ℕ → PushPc
    has_both : A → ℕ → ℕ → PushPc
    wrote : A → ℕ → PushPc

  -- Where the consumer stands inside `TryPop`; `holding` has moved the record out.
  pub data PopPc : Type 0 where
    idle : PopPc
    has_tail : ℕ → PopPc
    has_ends : ℕ → ℕ → PopPc
    holding : ℕ → Option A → PopPc

module _ {A : Type 0} where
  -- A call of `TryPush` begins by loading `_head`; a thread inside a call begins no other.
  unfoldable pub push_start : A → Ring A → PushPc A → PushPc A
  push_start x r ready = has_head x r.head
  push_start x r p = p

  -- The next step of a producer. The option is the record of a call that returns true here.
  unfoldable pub push_step : Ring A → PushPc A → Ring A × PushPc A × Option A
  push_step r ready = (r, ready, none)
  push_step r (has_head x h) = (r, has_both x h r.tail, none)
  push_step r (has_both x h t) =
      if leb r.capacity (sub_size h t)
      then (record r { dropped = add_size r.dropped 1 }, ready, none)
      else (record r { slots = set r.slots (slot r h) x }, wrote x h, none)
  push_step r (wrote x h) = (record r { head = add_size h 1 }, ready, some x)

  -- The next step of the consumer, which calls `TryPop` again and again. The option is the record
  -- of a call that returns true here.
  unfoldable pub pop_step : (A → A) → Ring A → PopPc A → Ring A × PopPc A × Option A
  pop_step moved r idle = (r, has_tail r.tail, none)
  pop_step moved r (has_tail t) = (r, has_ends t r.head, none)
  pop_step moved r (has_ends t h) = if t == h then (r, idle, none) else (
    record r { slots = leave moved r.slots (slot r t) },
    holding t (get_elem? r.slots (slot r t)),
    none,
  )
  pop_step moved r (holding t out) = (record r { tail = add_size t 1 }, idle, out)

pub data Turn (A : Type 0) : Type 0 where
  starts : ℕ → A → Turn A
  pushes : ℕ → Turn A
  pops : Turn A

-- `accepted` lists the records whose push has returned true, and `popped` those whose pop has, in
-- the order of the stores that publish them.
pub record System (A : Type 0) : Type 0 where
  pub ring : Ring A
  pub producers : ℕ → PushPc A
  pub consumer : PopPc A
  pub accepted : List A
  pub popped : List A

abbrev pub update {ℓ} : {B : Type ℓ} → (ℕ → B) → ℕ → B → ℕ → B
update f i b j = if i == j then b else f j

module _ {A : Type 0} where
  abbrev pub from_option : Option A → List A
  from_option none = []
  from_option (some x) = x ∷ []

  unfoldable pub step : (A → A) → System A → Turn A → System A
  unfolding push_start push_step pop_step
  step moved s (starts i x) = record s {
    producers = update s.producers i (push_start x s.ring (s.producers i));
  }
  step moved s (pushes i) =
      let (r, p, out) = push_step s.ring (s.producers i) in
      record s {
        ring = r;
        producers = update s.producers i p;
        accepted = s.accepted ++ from_option out;
      }
  step moved s pops =
      let (r, p, out) = pop_step moved s.ring s.consumer in
      record s { ring = r; consumer = p; popped = s.popped ++ from_option out }

  unfoldable pub schedule : (A → A) → System A → List (Turn A) → System A
  unfolding step
  schedule moved s [] = s
  schedule moved s (t ∷ ts) = schedule moved (step moved s t) ts

  abbrev pub at_rest : Ring A → System A
  at_rest r = record {
    ring = r;
    producers = λ _. ready;
    consumer = idle;
    accepted = [];
    popped = [];
  }

-- ===== src/Panels/Pie.antt =====
-- `DrawTopPie` and the table of viewer/src/panels/papyrus_panel.cpp. `partial_sort` and `sort` are
-- those of the standard library.
use mathlib.Core.List.{Permᴰ}
use skygraph.Prelude.{
  ℕ, suc, ◌+◌, ◌%◌, ◌^◌, ◌≤◌, ◌<◌, ◌≡◌, refl, sym, ap, ◌∙◌, String, Bool, List, [], ◌∷◌, ◌++◌, ltb,
  ◌==◌, if◌then◌else◌, length, length-append, length-take, take, drop, take-append-drop, min, arith,
  if-cases, if-all,
}
use skygraph.Store.{HotScript}

-- `kMaxSlices`
abbrev pub max_slices : ℕ
max_slices = 10

-- A label and its microseconds.
abbrev pub Slice : Type 0
Slice = String × ℕ

module _ {F D : Type 0} where
  -- The first rows, without those that have no time.
  unfoldable pub top_slices : List (HotScript F D) → List Slice
  top_slices [] = []
  top_slices (r ∷ rows) =
      let rest = top_slices rows in if r.us_window == 0 then rest else (r.name, r.us_window) ∷ rest

  -- `otherUs`
  unfoldable pub other_us : ℕ → List (HotScript F D) → ℕ
  other_us us [] = us
  other_us us (r ∷ rows) = other_us ((us + r.us_window) % 2 ^ 64) rows

  unfoldable pub pie_slices :
      (ℕ → List (HotScript F D) → List (HotScript F D)) → List (HotScript F D) → List Slice
  unfolding top_slices other_us
  pie_slices partial_sort [] = []
  pie_slices partial_sort (r ∷ rows) =
      let count = min max_slices (length (r ∷ rows)) in
      let sorted = partial_sort count (r ∷ rows) in
      let named = top_slices (take count sorted) in
      let other = other_us 0 (drop count sorted) in
      if ltb 0 other then named ++ ("(other)", other) ∷ [] else named

  -- The rows of the cumulative pie, from the total of each script.
  unfoldable pub cumulative_rows : (D → ℕ) → F → List (String × D) → List (HotScript F D)
  cumulative_rows to_u64 zero_float [] = []
  cumulative_rows to_u64 zero_float ((name, us) ∷ totals) =
      record {
        name = name;
        us_window = to_u64 us;
        calls_per_sec = zero_float;
        pct_frame = zero_float;
      }
      ∷ cumulative_rows to_u64 zero_float totals

  -- The time of some rows, and of some slices.
  abbrev pub time_of : List (HotScript F D) → ℕ
  time_of [] = 0
  time_of (r ∷ rows) = r.us_window + time_of rows

-- The arithmetic of `double` that the pie does.
pub record Shares (X : Type 0) : Type 0 where
  pub zero_double : X
  pub hundred : X
  pub of_u64 : ℕ → X
  pub add : X → X → X
  pub mul : X → X → X
  pub div : X → X → X
  pub less_eq : X → X → Bool

module _ {X : Type 0} (sh : Shares X) where
  -- `total`, from the values added before.
  unfoldable pub total_of : X → List Slice → X
  total_of sum [] = sum
  total_of sum ((label, us) ∷ slices) = total_of (sh.add sum (sh.of_u64 us)) slices

  unfoldable pub shares_of : X → List Slice → List (String × X)
  shares_of total [] = []
  shares_of total ((label, us) ∷ slices) =
      (label, sh.mul (sh.div (sh.of_u64 us) total) (sh.hundred)) ∷ shares_of total slices

  -- The slices in percent: nothing is drawn without slices, or if their sum is not above zero.
  unfoldable pub percents : List Slice → List (String × X)
  unfolding total_of shares_of
  percents [] = []
  percents (s ∷ slices) =
      let total = total_of (sh.zero_double) (s ∷ slices) in
      if sh.less_eq total (sh.zero_double) then [] else shares_of total (s ∷ slices)

abbrev pub shown : List Slice → ℕ
shown [] = 0
shown ((label, us) ∷ slices) = us + shown slices

shown-append : (a b : List Slice) → shown (a ++ b) ≡ shown a + shown b
shown-append [] b = omega arith
shown-append ((label, us) ∷ a) b = omega (arith, shown-append a b)

module _ {F D : Type 0} where
  top_slices-shown : (rows : List (HotScript F D)) → shown (top_slices rows) ≡ time_of rows
  unfolding top_slices
  top_slices-shown [] = refl
  top_slices-shown (r ∷ rows) =
      if-cases (λ s. shown s ≡ r.us_window + time_of rows) (r.us_window == 0) (top_slices rows)
        ((r.name, r.us_window) ∷ top_slices rows)
        (λ e. let z : r.us_window ≡ 0 = ground arith in omega (arith, top_slices-shown rows, z))
        (λ e. omega (arith, top_slices-shown rows))

  top_slices-length : (rows : List (HotScript F D)) → length (top_slices rows) ≤ length rows
  unfolding top_slices
  top_slices-length [] = omega arith
  top_slices-length (r ∷ rows) =
      if-all (λ s. length s ≤ suc (length rows)) (r.us_window == 0) (top_slices rows)
        ((r.name, r.us_window) ∷ top_slices rows) (omega (arith, top_slices-length rows))
        (omega (arith, top_slices-length rows))

  other_us-time :
      (us : ℕ) (rows : List (HotScript F D))
      → us + time_of rows < 2 ^ 64
      → other_us us rows ≡ us + time_of rows
  unfolding other_us
  other_us-time us [] h = omega arith
  other_us-time us (r ∷ rows) h =
      let small : (us + r.us_window) % 2 ^ 64 ≡ us + r.us_window = omega (arith, h) in
      ap (λ n. other_us n rows) small
      ∙ other_us-time (us + r.us_window) rows (omega (arith, h))
      ∙ omega arith

  time_of-append : (a b : List (HotScript F D)) → time_of (a ++ b) ≡ time_of a + time_of b
  time_of-append [] b = omega arith
  time_of-append (r ∷ a) b = omega (arith, time_of-append a b)

  time_of-Permᴰ : {a b : List (HotScript F D)} → Permᴰ a b → time_of a ≡ time_of b
  time_of-Permᴰ Permᴰ.nil = refl
  time_of-Permᴰ (Permᴰ.cons e p) =
      omega (arith, ap (λ (r : HotScript F D). r.us_window) e, time_of-Permᴰ p)
  time_of-Permᴰ (Permᴰ.swap e f) =
      omega (
        arith,
        ap (λ (r : HotScript F D). r.us_window) e,
        ap (λ (r : HotScript F D). r.us_window) f,
      )
  time_of-Permᴰ (Permᴰ.trans p q) = time_of-Permᴰ p ∙ time_of-Permᴰ q

  -- The slices of the pie show the whole time of the rows (which is below 2^64), and there are at
  -- most eleven. Relied on: partial_sort rearranges the rows.
  pub pie_slices-shown :
      (partial_sort : ℕ → List (HotScript F D) → List (HotScript F D)) (rows : List (HotScript F D))
      → ((n : ℕ) → Permᴰ (partial_sort n rows) rows)
      → time_of rows < 2 ^ 64
      → (shown (pie_slices partial_sort rows) ≡ time_of rows)
        × (length (pie_slices partial_sort rows) ≤ max_slices + 1)
  unfolding pie_slices
  pie_slices-shown partial_sort [] same small = (refl, omega arith)
  pie_slices-shown partial_sort (r ∷ rows) same small =
      let count = min max_slices (length (r ∷ rows)) in
      let sorted = partial_sort count (r ∷ rows) in
      let front = take count sorted in
      let back = drop count sorted in
      let split : time_of front + time_of back ≡ time_of (r ∷ rows) =
        sym (time_of-append front back)
        ∙ ap time_of (take-append-drop count sorted)
        ∙ time_of-Permᴰ (same count) in
      let rest : other_us 0 back ≡ 0 + time_of back =
        other_us-time 0 back (omega (arith, split, small)) in
      let few : length (top_slices front) ≤ max_slices =
        omega (arith, top_slices-length front, length-take count sorted) in
      if-cases (λ s. (shown s ≡ time_of (r ∷ rows)) × (length s ≤ max_slices + 1))
        (ltb 0 (other_us 0 back)) (top_slices front ++ ("(other)", other_us 0 back) ∷ [])
        (top_slices front)
        (λ e. (
          omega (
            arith,
            shown-append (top_slices front) (("(other)", other_us 0 back) ∷ []),
            top_slices-shown front,
            split,
            rest,
          ),
          omega (arith, length-append (top_slices front) (("(other)", other_us 0 back) ∷ []), few),
        ))
        (λ e.
          let none_left : other_us 0 back ≡ 0 = ground arith in
          (omega (arith, top_slices-shown front, split, rest, none_left), omega (arith, few)))

-- ===== src/Panels/Sorting.antt =====
-- The orders that the tables of viewer/src/panels/papyrus_panel.cpp and
-- viewer/src/panels/stutter_panel.cpp hand to std::sort. The comparisons of strings, of floats and of
-- doubles are parameters.
use skygraph.Prelude.{
  ℕ, ◌≡◌, ◌⊎◌, inl, inr, String, Bool, true, false, if◌then◌else◌, ltb, ◌==◌, arith, Bool-cases,
}
use skygraph.Store.{HotScript, StutterEntry}

-- `desc ? x > y : x < y`
abbrev pub directed {ℓ} : {A : Type ℓ} → Bool → (A → A → Bool) → A → A → Bool
directed desc less x y = if desc then less y x else less x y

-- The order of the scripts, for the column that is sorted by.
unfoldable pub script_before :
    {F D : Type 0}
    → (String → String → Bool)
    → (F → F → Bool)
    → ℕ
    → Bool
    → HotScript F D
    → HotScript F D
    → Bool
script_before less_string less_float col desc a b =
    if col == 0
    then directed desc less_string (a.name) (b.name)
    else if col == 2
    then directed desc less_float (a.calls_per_sec) (b.calls_per_sec)
    else if col == 3
    then directed desc less_float (a.pct_frame) (b.pct_frame)
    else directed desc ltb a.us_window b.us_window

unfoldable pub stutter_before :
    {J F D : Type 0}
    → (D → D → Bool)
    → (F → F → Bool)
    → ℕ
    → Bool
    → StutterEntry J F D
    → StutterEntry J F D
    → Bool
stutter_before less_double less_float col desc a b =
    if col == 0
    then directed desc less_double (a.t) (b.t)
    else if col == 2
    then directed desc less_float (a.ratio) (b.ratio)
    else directed desc less_float (a.frame_ms) (b.frame_ms)

-- What std::sort requires: nothing is before itself, before is transitive, and so is to be neither
-- before nor after.
pub record StrictWeak {ℓ} {A : Type ℓ} (less : A → A → Bool) : Type ℓ where
  pub irreflexive : (a : A) → less a a ≡ false
  pub transitive : (a b c : A) → less a b ≡ true → less b c ≡ true → less a c ≡ true
  pub apart : (a b c : A) → less a c ≡ true → (less a b ≡ true) ⊎ (less b c ≡ true)

directed-StrictWeak {ℓ} :
    {A : Type ℓ} (desc : Bool) (less : A → A → Bool)
    → StrictWeak less
    → StrictWeak (directed desc less)
directed-StrictWeak false less h = h
directed-StrictWeak true less h = record {
  irreflexive = h.irreflexive;
  transitive = λ a b c p q. h.transitive c b a q p;
  apart = λ a b c p. elim (h.apart c b a p) [ inl q ↦ inr q | inr q ↦ inl q ];
}

-- An order by a key.
by_key-StrictWeak {ℓ κ} :
    {A : Type ℓ} {B : Type κ} (key : A → B) (less : B → B → Bool)
    → StrictWeak less
    → StrictWeak (λ x y. less (key x) (key y))
by_key-StrictWeak key less h = record {
  irreflexive = λ a. h.irreflexive (key a);
  transitive = λ a b c. h.transitive (key a) (key b) (key c);
  apart = λ a b c. h.apart (key a) (key b) (key c);
}

pub ltb-StrictWeak : StrictWeak ltb
ltb-StrictWeak = record {
  irreflexive = λ a. ground arith;
  transitive = λ a b c p q. ground arith;
  apart = λ a b c p. elim (Bool-cases (ltb a b)) [ inl e ↦ inl e | inr e ↦ inr (ground arith) ];
}

chosen-StrictWeak {ℓ} :
    {A : Type ℓ} (b : Bool) (f g : A → A → Bool)
    → StrictWeak f
    → StrictWeak g
    → StrictWeak (λ x y. if b then f x y else g x y)
chosen-StrictWeak true f g p q = p
chosen-StrictWeak false f g p q = q

-- Whatever column is sorted by and in whichever direction, also one that neither table knows, the
-- orders of the scripts and of the stutters are strict weak orderings, as std::sort requires. Relied
-- on: the comparisons of strings, of floats and of doubles are (which excludes not-a-number; JSON
-- has none).
pub orders-StrictWeak :
    {J F D : Type 0} (less_string : String → String → Bool) (less_float : F → F → Bool)
    (less_double : D → D → Bool) (col : ℕ) (desc : Bool)
    → StrictWeak less_string
    → StrictWeak less_float
    → StrictWeak less_double
    → StrictWeak (script_before {F = F} {D = D} less_string less_float col desc)
      × StrictWeak (stutter_before {J = J} {F = F} {D = D} less_double less_float col desc)
unfolding script_before stutter_before
orders-StrictWeak less_string less_float less_double col desc s f d = (
  chosen-StrictWeak (col == 0) _ _
      (by_key-StrictWeak (λ r. r.name) _ (directed-StrictWeak desc less_string s))
      (chosen-StrictWeak (col == 2) _ _
        (by_key-StrictWeak (λ r. r.calls_per_sec) _ (directed-StrictWeak desc less_float f))
        (chosen-StrictWeak (col == 3) _ _
          (by_key-StrictWeak (λ r. r.pct_frame) _ (directed-StrictWeak desc less_float f))
          (by_key-StrictWeak (λ r. r.us_window) _ (directed-StrictWeak desc ltb ltb-StrictWeak)))),
  chosen-StrictWeak (col == 0) _ _
      (by_key-StrictWeak (λ r. r.t) _ (directed-StrictWeak desc less_double d))
      (chosen-StrictWeak (col == 2) _ _
        (by_key-StrictWeak (λ r. r.ratio) _ (directed-StrictWeak desc less_float f))
        (by_key-StrictWeak (λ r. r.frame_ms) _ (directed-StrictWeak desc less_float f))),
)

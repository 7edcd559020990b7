-- ===== src/Panels/Guilty.antt =====
-- `TopSubsystem` of viewer/src/panels/stutter_panel.cpp and the order of its list. A JSON value is a
-- `J`, a `float` a number with a comparison; `value_of` is `value(name, 0.0f)`, and `none` where it
-- throws.
use skygraph.Prelude.{
  ◌≡◌, ◌⊎◌, inl, inr, refl, sym, ap, ◌∙◌, subst, String, Bool, true, false, not, Option, none, some,
  List, [], ◌∷◌, if◌then◌else◌, if-cases, Option-all, Bool-cases,
}

-- What the panel uses of a value.
pub record Snapshot (J F : Type 0) : Type 0 where
  pub is_object : J → Bool
  pub find : J → String → Option J
  pub value_of : J → String → Option F
  pub less : F → F → Bool
  pub zero_float : F

-- The members, with the labels that are shown for them.
abbrev pub subsystems : List (String × String)
subsystems =
    ("papyrus_ms", "papyrus")
    ∷ ("havok_ms", "havok")
    ∷ ("ai_ms", "ai")
    ∷ ("render_submit_ms", "render")
    ∷ ("streaming_ms", "streaming")
    ∷ ("other_ms", "other")
    ∷ []

module _ {J F : Type 0} (snap : Snapshot J F) where
  -- The loop, with the best value so far and its label.
  unfoldable pub guiltiest : J → F → String → List (String × String) → Option (F × String)
  guiltiest bd best who [] = some (best, who)
  guiltiest bd best who ((name, label) ∷ names) = elim (snap.value_of bd name) [
    | none ↦ none
    | some v ↦
        (let higher = guiltiest bd v label names in
          let same = guiltiest bd best who names in if snap.less best v then higher else same)
  ]

  abbrev pub label_of : Option (F × String) → Option String
  label_of none = none
  label_of (some p) = some (p.1)

  unfoldable pub top_subsystem : J → Option String
  unfolding guiltiest
  top_subsystem j =
      if not (snap.is_object j) then some "?" else elim (snap.find j "cpu_breakdown") [
        | none ↦ some "?"
        | some bd ↦
            if not (snap.is_object bd)
            then some "?"
            else label_of (guiltiest bd (snap.zero_float) "?" subsystems)
      ]

  -- No value of the members is above the best one.
  abbrev pub NoneAbove : J → F → List (String × String) → Type 0
  NoneAbove bd best [] = Unit
  NoneAbove bd best ((name, label) ∷ names) =
      ((v : F) → snap.value_of bd name ≡ some v → snap.less best v ≡ false)
      × NoneAbove bd best names

  -- The value is the best one before, or above it.
  abbrev Reached : F → F → Type 0
  Reached best v = (v ≡ best) ⊎ (snap.less best v ≡ true)

  abbrev pub Best : J → F → List (String × String) → Option (F × String) → Type 0
  Best bd best names none = Unit
  Best bd best names (some r) = Reached best (r.0) × NoneAbove bd (r.0) names

  -- A member has the value, and its label is the one that is shown.
  abbrev pub Among : J → F × String → List (String × String) → Type 0
  Among bd r [] = ⊥
  Among bd r ((name, label) ∷ names) =
      ((snap.value_of bd name ≡ some (r.0)) × (label ≡ r.1)) ⊎ Among bd r names

  abbrev pub Labelled : J → F → String → List (String × String) → Option (F × String) → Type 0
  Labelled bd best who names none = Unit
  Labelled bd best who names (some r) = (r ≡ (best, who)) ⊎ Among bd r names

  Labelled-higher :
      (bd : J) (best v : F) (who name label : String) (names : List (String × String))
      (o : Option (F × String))
      → snap.value_of bd name ≡ some v
      → Labelled bd v label names o
      → Labelled bd best who ((name, label) ∷ names) o
  Labelled-higher bd best v who name label names none e l = tt
  Labelled-higher bd best v who name label names (some r) e (inl q) =
      inr
        (inl (e ∙ ap (λ (p : F × String). some p.0) (sym q), ap (λ (p : F × String). p.1) (sym q)))
  Labelled-higher bd best v who name label names (some r) e (inr m) = inr (inr m)

  Labelled-same :
      (bd : J) (best : F) (who name label : String) (names : List (String × String))
      (o : Option (F × String))
      → Labelled bd best who names o
      → Labelled bd best who ((name, label) ∷ names) o
  Labelled-same bd best who name label names none l = tt
  Labelled-same bd best who name label names (some r) (inl q) = inl q
  Labelled-same bd best who name label names (some r) (inr m) = inr (inr m)

  guiltiest-Labelled :
      (bd : J) (best : F) (who : String) (names : List (String × String))
      → Labelled bd best who names (guiltiest bd best who names)
  unfolding guiltiest
  guiltiest-Labelled bd best who [] = inl refl
  guiltiest-Labelled bd best who ((name, label) ∷ names) =
      Option-all (Labelled bd best who ((name, label) ∷ names)) (snap.value_of bd name) none
        (λ v. if snap.less best v then guiltiest bd v label names else guiltiest bd best who names)
        tt
        (λ v e.
          if-cases (Labelled bd best who ((name, label) ∷ names)) (snap.less best v)
            (guiltiest bd v label names) (guiltiest bd best who names)
            (λ h.
              Labelled-higher bd best v who name label names (guiltiest bd v label names) e
                (guiltiest-Labelled bd v label names))
            (λ h.
              Labelled-same bd best who name label names (guiltiest bd best who names)
                (guiltiest-Labelled bd best who names)))

  module _
      (trans : (a b c : F) → snap.less a b ≡ true → snap.less b c ≡ true → snap.less a c ≡ true)
      (irrefl : (a : F) → snap.less a a ≡ false) where
    not_both : (b : Bool) → b ≡ true → b ≡ false → ⊥
    not_both b h k = cc

    -- A value that the best one is not below stays below what is reached from it.
    stays : (best v r : F) → snap.less best v ≡ false → Reached best r → snap.less r v ≡ false
    stays best v r h (inl e) = subst (λ x. snap.less x v ≡ false) (sym e) h
    stays best v r h (inr up) = elim (Bool-cases (snap.less r v)) [
      | inl e ↦ absurd (not_both (snap.less best v) (trans best r v up e) h)
      | inr e ↦ e
    ]

    raised : (best v r : F) → snap.less best v ≡ true → Reached v r → Reached best r
    raised best v r h (inl e) = inr (subst (λ x. snap.less best x ≡ true) (sym e) h)
    raised best v r h (inr up) = inr (trans best v r h up)

    above-cons :
        (bd : J) (name label : String) (names : List (String × String)) (v r : F)
        → snap.value_of bd name ≡ some v
        → snap.less r v ≡ false
        → NoneAbove bd r names
        → NoneAbove bd r ((name, label) ∷ names)
    above-cons bd name label names v r e h rest =
        ((λ w f. let same : v ≡ w = cc in subst (λ x. snap.less r x ≡ false) same h), rest)

    Best-higher :
        (bd : J) (best v : F) (name label : String) (names : List (String × String))
        (o : Option (F × String))
        → snap.value_of bd name ≡ some v
        → snap.less best v ≡ true
        → Best bd v names o
        → Best bd best ((name, label) ∷ names) o
    Best-higher bd best v name label names none e h b = tt
    Best-higher bd best v name label names (some r) e h b = (
      raised best v (r.0) h (b.0),
      above-cons bd name label names v (r.0) e (stays v v (r.0) (irrefl v) (b.0)) (b.1),
    )

    Best-same :
        (bd : J) (best v : F) (name label : String) (names : List (String × String))
        (o : Option (F × String))
        → snap.value_of bd name ≡ some v
        → snap.less best v ≡ false
        → Best bd best names o
        → Best bd best ((name, label) ∷ names) o
    Best-same bd best v name label names none e h b = tt
    Best-same bd best v name label names (some r) e h b =
        (b.0, above-cons bd name label names v (r.0) e (stays best v (r.0) h (b.0)) (b.1))

    guiltiest-Best :
        (bd : J) (best : F) (who : String) (names : List (String × String))
        → Best bd best names (guiltiest bd best who names)
    unfolding guiltiest
    guiltiest-Best bd best who [] = (inl refl, tt)
    guiltiest-Best bd best who ((name, label) ∷ names) =
        Option-all (Best bd best ((name, label) ∷ names)) (snap.value_of bd name) none
          (λ v.
            if snap.less best v then guiltiest bd v label names else guiltiest bd best who names)
          tt
          (λ v e.
            if-cases (Best bd best ((name, label) ∷ names)) (snap.less best v)
              (guiltiest bd v label names) (guiltiest bd best who names)
              (λ h.
                Best-higher bd best v name label names (guiltiest bd v label names) e h
                  (guiltiest-Best bd v label names))
              (λ h.
                Best-same bd best v name label names (guiltiest bd best who names) e h
                  (guiltiest-Best bd best who names)))

    -- Unless a member cannot be read, the loop ends with a value that no member is above (and that is
    -- the first best value or above it), and with the label of a member that has this value, or with
    -- the first value and label. Relied on: the comparison is transitive and irreflexive, as that of
    -- floats is, not-a-number included.
    pub guiltiest_lem :
        (bd : J) (best : F) (who : String) (names : List (String × String))
        → Best bd best names (guiltiest bd best who names)
          × Labelled bd best who names (guiltiest bd best who names)
    guiltiest_lem bd best who names =
        (guiltiest-Best bd best who names, guiltiest-Labelled bd best who names)

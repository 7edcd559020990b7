-- ===== src/Panels/Timeline.antt =====
-- The playhead of viewer/src/panels/timeline_panel.cpp. `D` is a `double`; the slider and the button
-- are what ImGui answers in a frame.
use skygraph.Prelude.{
  ◌≡◌, refl, ap, ◌∙◌, Bool, true, false, not, ◌&&◌, Option, none, some, List, [], ◌∷◌,
  if◌then◌else◌,
}
use skygraph.Store.{FrameSample}

pub record TimelineState (D : Type 0) : Type 0 where
  pub playhead_t : Option D
  pub initialized : Bool

-- `frames.back().t`
abbrev pub last_t : {F D : Type 0} → FrameSample F D → List (FrameSample F D) → D
last_t f [] = f.t
last_t f (g ∷ gs) = last_t g gs

-- What the user does with the slider (the time that it was moved to) and the button in a frame.
pub record Input (D : Type 0) : Type 0 where
  pub slid_to : Option D
  pub live_pressed : Bool

module _ {D : Type 0} where
  -- The first time that a replay is drawn puts the playhead at its end.
  unfoldable pub place : Bool → D → TimelineState D → TimelineState D
  place replay t_max s =
      if replay && not s.initialized
      then record { playhead_t = some t_max; initialized = true }
      else s

  unfoldable pub slide : D → Input D → TimelineState D → TimelineState D
  slide t_max input s = elim (s.playhead_t) [
    | none ↦ s
    | some ph ↦
        let moved : TimelineState D = elim (input.slid_to) [
          | none ↦ s
          | some t ↦ record s { playhead_t = some t }
        ] in
        if input.live_pressed then record s { playhead_t = some t_max } else moved
  ]

  -- Nothing is done.
  abbrev pub idle : Input D
  idle = record { slid_to = none; live_pressed = false }

module _ {F D : Type 0} where
  unfoldable pub draw : Bool → Input D → List (FrameSample F D) → TimelineState D → TimelineState D
  unfolding place slide
  draw replay input [] s = s
  draw replay input (f ∷ fs) s =
      let placed = place replay (last_t f fs) s in
      if replay then slide (last_t f fs) input placed else placed

  unfoldable pub draws : Bool → List (List (FrameSample F D)) → TimelineState D → TimelineState D
  unfolding draw
  draws replay [] s = s
  draws replay (fs ∷ fss) s = draws replay fss (draw replay idle fs s)

  placed-stays :
      (replay : Bool) (t : D) (fs : List (FrameSample F D))
      → draw replay idle fs (record { playhead_t = some t; initialized = true })
        ≡ record { playhead_t = some t; initialized = true }
  unfolding draw place slide
  placed-stays replay t [] = refl
  placed-stays false t (f ∷ fs) = refl
  placed-stays true t (f ∷ fs) = refl

  -- Once it is placed, the playhead stays where it is while the user does nothing, whatever frames
  -- are drawn then, those of another file too.
  pub draws-stays :
      (replay : Bool) (t : D) (fss : List (List (FrameSample F D)))
      → draws replay fss (record { playhead_t = some t; initialized = true })
        ≡ record { playhead_t = some t; initialized = true }
  unfolding draws
  draws-stays replay t [] = refl
  draws-stays replay t (fs ∷ fss) =
      ap (draws replay fss) (placed-stays replay t fs) ∙ draws-stays replay t fss

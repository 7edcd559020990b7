-- ===== src/Panels/Replaced.antt =====
-- Frames of the status bar (viewer/src/panels/status_bar.cpp), with what arrives between them.
use skygraph.Prelude.{
  ℕ, ◌≡◌, ◌⊎◌, inl, inr, Bool-cases, refl, ap, ◌∙◌, Bool, true, false, not, ◌&&◌, Option, none,
  some, List, [], ◌∷◌, map, if◌then◌else◌, arith,
}
use skygraph.Prelude
use skygraph.Store.{TelemetryStore}
use skygraph.Store.Json.{Json}
use skygraph.App.{AppSource}
use skygraph.Panels.StatusBar.{
  Choice, nothing, open_session, connect_live, exit, Input, StatusState, Window, base, choose,
  source_at, Drawn, draw_with, draw,
}

-- Does the choice leave the window its source?
abbrev pub keeps : Choice → Bool
keeps nothing = true
keeps connect_live = false
keeps exit = true
keeps (open_session []) = true
keeps (open_session (c ∷ path)) = false

-- Before a frame the source gets on and its records come into the store.
pub record Frame (H J F D : Type 0) : Type 0 where
  pub progress : AppSource H J → AppSource H J
  pub store : TelemetryStore J F D
  pub input : Input
  pub now : ℕ

abbrev pub all_keep : {H J F D : Type 0} → List (Frame H J F D) → Bool
all_keep [] = true
all_keep (f ∷ fs) = keeps (f.input.choice) && all_keep fs

abbrev pub defined : {A : Type 0} → Option A → Bool
defined none = false
defined (some a) = true

module _ {H J F D : Type 0} where
  abbrev pub arrive : Window H J F D → Frame H J F D → Window H J F D
  arrive w f = record w {
    app = record (w.app) {
      source = elim (w.app.source) [ none ↦ none | some s ↦ some (f.progress s) ];
      store = f.store;
    };
  }

  abbrev pub HasSource : Window H J F D → Type 0
  HasSource w = (s : AppSource H J) × (w.app.source ≡ some s)

  arrive-HasSource : (w : Window H J F D) (f : Frame H J F D) → HasSource w → HasSource (arrive w f)
  arrive-HasSource w f (s, e) = (f.progress s, rw e refl)

  module _ (json : Json J F D) (per_second : ℕ) where
    -- The frames, one after the other; `none` is a read of a deleted source in one of them.
    unfoldable pub draw_frames :
        Window H J F D → StatusState → List (Frame H J F D) → Option (Window H J F D)
    unfolding draw
    draw_frames w st [] = some w
    draw_frames w st (f ∷ fs) = elim (draw json per_second (arrive w f) st (f.input) (f.now)) [
      | none ↦ none
      | some p ↦ draw_frames p.2 p.1 fs
    ]

    choose-keeps :
        (w : Window H J F D) (c : Choice)
        → keeps c ≡ true
        → ((choose json w c).made ≡ w.made) × ((choose json w c).app.source ≡ w.app.source)
    unfolding choose
    choose-keeps w nothing h = (refl, refl)
    choose-keeps w connect_live h = cc h
    choose-keeps w exit h = (refl, refl)
    choose-keeps w (open_session []) h = (refl, refl)
    choose-keeps w (open_session (c ∷ path)) h = cc h

    choose-replaces :
        (w : Window H J F D) (c : Choice)
        → keeps c ≡ false
        → source_at (choose json w c) w.made ≡ none
    unfolding choose
    choose-replaces w nothing h = cc h
    choose-replaces w connect_live h = ground arith
    choose-replaces w exit h = cc h
    choose-replaces w (open_session []) h = cc h
    choose-replaces w (open_session (c ∷ path)) h = ground arith

    source_at-keeps :
        (w : Window H J F D) (c : Choice) (s : AppSource H J)
        → keeps c ≡ true
        → w.app.source ≡ some s
        → source_at (choose json w c) w.made ≡ some (base s)
    source_at-keeps w c s h e =
        let (same, kept) = choose-keeps w c h in
        let here : (Prelude.◌==◌ w.made (choose json w c).made) ≡ true = ground (arith, same) in
        rw (here, kept, e) refl

    draw-replaces :
        (w : Window H J F D) (st : StatusState) (i : Input) (now : ℕ)
        → keeps (i.choice) ≡ false
        → draw json per_second w st i now ≡ none
    unfolding draw
    draw-replaces w st i now h = rw (choose-replaces w (i.choice) h, draw) refl

    -- A frame that reads the source that is there goes on with a window that has a source.
    draw-keeps :
        (w : Window H J F D) (st : StatusState) (i : Input) (now : ℕ)
        → keeps (i.choice) ≡ true
        → HasSource w
        → (p : Drawn F × StatusState × Window H J F D) × (draw json per_second w st i now ≡ some p)
          × HasSource (p.2)
    unfolding draw draw_with
    draw-keeps w st i now h (s, e) = (
      draw_with json per_second (choose json w (i.choice)) st i now (base s),
      rw (source_at-keeps w (i.choice) s h e, draw) refl,
      (s, (choose-keeps w (i.choice) h).1 ∙ e),
    )

    draw_frames-replaces :
        (w : Window H J F D) (st : StatusState) (f : Frame H J F D) (fs : List (Frame H J F D))
        → keeps (f.input.choice) ≡ false
        → draw_frames w st (f ∷ fs) ≡ none
    unfolding draw_frames
    draw_frames-replaces w st f fs h =
        rw (draw-replaces (arrive w f) st (f.input) (f.now) h, draw_frames) refl

    draw_frames-keeps :
        (w : Window H J F D) (st : StatusState) (f : Frame H J F D) (fs : List (Frame H J F D))
        → keeps (f.input.choice) ≡ true
        → HasSource w
        → (st' : StatusState) × (w' : Window H J F D) × HasSource w'
          × (draw_frames w st (f ∷ fs) ≡ draw_frames w' st' fs)
    unfolding draw_frames
    draw_frames-keeps w st f fs h k =
        let (p, e, k') = draw-keeps (arrive w f) st (f.input) (f.now) h (arrive-HasSource w f k) in
        (p.1, p.2, k', rw (e, draw_frames) refl)

    -- Frames of the status bar, one after the other, read no deleted source exactly if in none of them
    -- the menu changes the source (a session is opened, with a path chosen, or the live pipe is
    -- connected), whatever else is pressed and arrives: the frame with the first such choice reads
    -- the source that the callback has deleted. Condition: the window has a source at first.
    pub defined-draw_frames :
        (w : Window H J F D) (st : StatusState) (fs : List (Frame H J F D))
        → HasSource w
        → defined (draw_frames w st fs) ≡ all_keep fs
    unfolding draw_frames
    defined-draw_frames w st [] k = refl
    defined-draw_frames w st (f ∷ fs) k = elim (Bool-cases (keeps (f.input.choice))) [
      | inl h ↦
          let (st', w', k', e) = draw_frames-keeps w st f fs h k in
          ap defined e ∙ defined-draw_frames w' st' fs k' ∙ rw (h) refl
      | inr h ↦ ap defined (draw_frames-replaces w st f fs h) ∙ rw (h) refl
    ]

-- ===== src/Panels/StatusBar.antt =====
-- `Draw` of viewer/src/panels/status_bar.cpp, with the callbacks of `App::DrawUi`
-- (viewer/src/app.cpp). What ImGui answers in a frame is an input. `Draw` has a reference to the
-- source of the window, which is here the number of the source: the window numbers the sources that
-- it makes, and a new one deletes the one before. A clock has `per_second` ticks in a second.
use text.Mathlib.Text.{◌==◌}
use skygraph.Prelude.{
  ℕ, suc, ◌-◌, ◌*◌, ◌/◌, String, Bool, true, false, not, ◌&&◌, Option, none, some, List, [], ◌∷◌,
  ◌++◌, ltb, if◌then◌else◌,
}
use skygraph.Prelude
use skygraph.Framing.{Text}
use skygraph.Source.{Source, State}
use skygraph.Store.{TelemetryStore}
use skygraph.Store.Json.{Json}
use skygraph.App.{App, AppSource, live, replaying, open_live_pipe, open_replay_file}
use skygraph.Panels.Charts.{state_label, can_save, session_time}

-- The item of the menu that is chosen. A session has the path that its dialog gives, which is empty
-- if it was cancelled.
pub data Choice : Type 0 where
  nothing connect_live exit : Choice
  open_session : Text → Choice

pub record Input : Type 0 where
  pub choice : Choice
  pub save_session_pressed : Bool
  -- the dialog: is it shown, its text, and its buttons
  pub shown : Bool
  pub typed : String
  pub save_pressed : Bool
  pub open_folder_pressed : Bool

pub record StatusState : Type 0 where
  pub save_name : String
  pub save_popup_open : Bool

pub data Item (F : Type 0) : Type 0 where
  pill : String → Item F
  fps : F → F → F → F → Item F
  no_fps : Item F
  memory : F → F → F → Item F
  vm : ℕ → ℕ → ℕ → Item F
  cell : String → Item F
  session : ℕ × ℕ × ℕ → Item F
  -- records and bytes
  received : ℕ → ℕ → Item F
  saved : String → Item F

-- What a frame shows and calls.
pub record Drawn (F : Type 0) : Type 0 where
  pub items : List (Item F)
  pub opens_popup : Bool
  pub on_save_session : Option String
  pub on_reveal_path : Option String

pub record Window (H J F D : Type 0) : Type 0 where
  pub app : App H J F D
  pub made : ℕ

abbrev pub base : {H J : Type 0} → AppSource H J → Source J
base (live c) = c.source
base (replaying f) = f.source

module _ {H J F D : Type 0} where
  abbrev pub replaced : Window H J F D → Option (AppSource H J) × App H J F D → Window H J F D
  replaced w (stopped, a) = record { app = a; made = suc w.made }

  -- The callbacks of the menu.
  unfoldable pub choose : Json J F D → Window H J F D → Choice → Window H J F D
  unfolding open_live_pipe open_replay_file
  choose json w nothing = w
  choose json w (open_session []) = w
  choose json w (open_session (c ∷ path)) = replaced w (open_replay_file json w.app (c ∷ path))
  choose json w connect_live = replaced w (open_live_pipe json w.app)
  choose json w exit = record w { app = record (w.app) { running = false } }

  -- What is read through a reference: nothing, if the source is deleted.
  abbrev pub source_at : Window H J F D → ℕ → Option (Source J)
  source_at w r =
      if Prelude.◌==◌ r w.made
      then elim (w.app.source) [ none ↦ none | some s ↦ some (base s) ]
      else none

module _ {J F D : Type 0} (per_second : ℕ) where
  -- The save is shown for eight seconds.
  unfoldable pub saved_item : TelemetryStore J F D → ℕ → List (Item F)
  saved_item store now = elim (store.last_saved_path) [
    | none ↦ []
    | some path ↦ if ltb (now - store.last_saved_at) (8 * per_second) then saved path ∷ [] else []
  ]

  unfoldable pub bar_items : TelemetryStore J F D → Source J → ℕ → List (Item F)
  unfolding state_label session_time saved_item
  bar_items store source now =
      let frame : List (Item F) = elim (store.last_frame) [
        | none ↦ no_fps ∷ []
        | some f ↦ fps (f.fps) (f.dt_ms) (f.cpu_ms) (f.gpu_ms) ∷ []
      ] in
      let mem : List (Item F) = elim (store.last_memory) [
        | none ↦ []
        | some m ↦ memory (m.working_set_mb) (m.vram_used_mb) (m.vram_budget_mb) ∷ []
      ] in
      let scripts : List (Item F) = elim (store.last_papyrus) [
        | none ↦ []
        | some p ↦ vm (p.active) (p.suspended) (p.latent) ∷ []
      ] in
      let place : List (Item F) = elim (store.last_state) [
        | none ↦ []
        | some s ↦ if s.cell == "" then [] else cell (s.cell) ∷ []
      ] in
      let time : List (Item F) = elim (store.connection) [
        | none ↦ []
        | some c ↦ session (session_time ((now - c.first_seen) / per_second)) ∷ []
      ] in
      pill (state_label (source.state)) ∷ frame
      ++ (mem
          ++ (scripts
              ++ (place
                  ++ (time
                      ++ received (store.total_records) (source.bytes_in) ∷ saved_item store now))))

-- "Save Session" on the bar.
unfoldable pub save_button : StatusState → State → Input → StatusState
unfolding can_save
save_button st state i =
    if can_save true state && i.save_session_pressed
    then record { save_name = "session"; save_popup_open = true }
    else st

-- The dialog: the state with the name, and the name that is saved.
unfoldable pub dialog : StatusState → Input → StatusState × Option String
dialog st i =
    if i.shown
    then (
      record st { save_name = i.typed },
      if i.save_pressed && not (i.typed == "") then some (i.typed) else none,
    )
    else (st, none)

-- "Open folder" of the dialog.
unfoldable pub folder : Option String → Input → Option String
folder path i = if i.shown && i.open_folder_pressed then path else none

module _ {H J F D : Type 0} (json : Json J F D) (per_second : ℕ) where
  -- The frame after the menu, with the source that is read.
  unfoldable pub draw_with :
      Window H J F D → StatusState → Input → ℕ → Source J → Drawn F × StatusState × Window H J F D
  unfolding bar_items save_button dialog folder
  draw_with w st i now source =
      let st1 = save_button st (source.state) i in
      let (st2, name) = dialog (record st1 { save_popup_open = false }) i in
      (
        record {
          items = bar_items per_second w.app.store source now;
          opens_popup = st1.save_popup_open;
          on_save_session = name;
          on_reveal_path = folder (w.app.store.last_saved_path) i;
        },
        st2,
        w,
      )

  -- `none` is a read of a deleted source.
  unfoldable pub draw :
      Window H J F D → StatusState → Input → ℕ → Option (Drawn F × StatusState × Window H J F D)
  unfolding choose draw_with
  draw w st i now =
      let w' = choose json w (i.choice) in
      elim (source_at w' w.made) [ none ↦ none | some source ↦ some (draw_with w' st i now source) ]

-- ===== src/Panels/Filters.antt =====
-- The filters of viewer/src/panels/events_panel.cpp and viewer/src/panels/plugins_panel.cpp, the
-- pinned rows of papyrus_panel.cpp and the playhead of timeline_panel.cpp. `contains` is
-- `find(..) != npos`.
use text.Mathlib.Text.{◌==◌, starts_with}
use skygraph.Prelude.{
  ℕ, suc, String, Bool, true, false, not, ◌&&◌, ◌||◌, List, [], ◌∷◌, ◌++◌, if◌then◌else◌,
}
use skygraph.Store.{EventEntry, HotScript}

-- The check boxes and the text of the filter.
pub record EventsState : Type 0 where
  pub show_cell : Bool
  pub show_save : Bool
  pub show_mod_event : Bool
  pub show_streaming_hitch : Bool
  pub show_crash : Bool
  pub filter : String

pub data Color : Type 0 where
  crash hitch stutter attach detach save default : Color

unfoldable pub color_for : String → Color
color_for type =
    if type == "event.crash"
    then crash
    else if type == "event.streaming_hitch"
    then hitch
    else if type == "event.stutter"
    then stutter
    else if type == "event.cell_attach"
    then attach
    else if type == "event.cell_detach"
    then detach
    else if type == "event.save" || type == "event.autosave"
    then save
    else default

module _ (contains : String → String → Bool) where
  unfoldable pub passes_filter : {J D : Type 0} → EventEntry J D → EventsState → Bool
  passes_filter e s =
      if not (s.show_cell) && starts_with (e.type) "event.cell_"
      then false
      else if not (s.show_save) && (e.type == "event.save" || e.type == "event.autosave")
      then false
      else if not (s.show_mod_event) && e.type == "event.mod_event"
      then false
      else if not (s.show_streaming_hitch) && e.type == "event.streaming_hitch"
      then false
      else if not (s.show_crash) && e.type == "event.crash"
      then false
      else if s.filter == ""
      then true
      else contains (e.summary) (s.filter) || contains (e.type) (s.filter)

  -- The rows of the load order that are drawn, with their numbers.
  unfoldable pub plugin_rows : String → ℕ → List String → List (ℕ × String)
  plugin_rows filter i [] = []
  plugin_rows filter i (name ∷ names) =
      let rest = plugin_rows filter (suc i) names in
      if not (filter == "") && not (contains name filter) then rest else (i, name) ∷ rest

module _ {F D : Type 0} (pinned : String → Bool) where
  -- The rows that are pinned, or those that are not.
  unfoldable pub rows_where : Bool → List (HotScript F D) → List (HotScript F D)
  rows_where true [] = []
  rows_where false [] = []
  rows_where true (r ∷ rows) =
      let rest = rows_where true rows in if pinned (r.name) then r ∷ rest else rest
  rows_where false (r ∷ rows) =
      let rest = rows_where false rows in if pinned (r.name) then rest else r ∷ rest

  -- The order in which the sorted rows are drawn.
  unfoldable pub drawn_rows : List (HotScript F D) → List (HotScript F D)
  unfolding rows_where
  drawn_rows rows = rows_where true rows ++ rows_where false rows

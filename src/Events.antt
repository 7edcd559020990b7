-- ===== src/Events.antt =====
-- plugin/src/samplers/event_sources.cpp: the events of the game and what is submitted for them. The
-- clock of a handler is its reading in microseconds; `now` is the wall clock. `dump` is `none` where
-- it throws (a string that is not UTF-8), and what is thrown leaves the handler. `ms` is the division
-- by 1000.0. The map of the start times is a function.
pub mod Entries
pub mod Timing
mod Tests
use text.Mathlib.Text.{◌==◌}
use skygraph.Prelude
use skygraph.Prelude.{
  ℕ, String, Bool, true, false, Option, none, some, List, [], ◌∷◌, ◌++◌, if◌then◌else◌,
}
use skygraph.Cpu.{ℤ, difference}
use skygraph.Frame.Cache.{LatestCache, note_cell_attach_start, note_cell_attach_complete}
use skygraph.Plugin.Records.{Value, Fields, Values, str, num, object, array, end, field, nil, cons}

pub record Cell : Type 0 where
  pub form_id : ℕ
  pub editor_id : String
  pub name : String

-- A cell is attached or detached by a reference that is in it; `none` for a null pointer.
pub record AttachDetach : Type 0 where
  pub parent_cell : Option (Option Cell)
  pub attached : Bool

pub record EventSources (F D : Type 0) : Type 0 where
  pub has_writer : Bool
  pub attach_start_us : ℕ → Option ℕ
  pub cache : LatestCache F D
  pub submitted : List String

-- A handler returned, or something was thrown out of it.
pub data Outcome {ℓ} (S : Type ℓ) : Type ℓ where
  done : S → Outcome S
  threw : S → Outcome S

-- The text that names a cell.
unfoldable pub cell_name : Cell → String
cell_name c = if c.editor_id == "" then c.name else c.editor_id

module _ {ℓ} {A : Type ℓ} where
  unfoldable pub insert : ℕ → A → (ℕ → Option A) → ℕ → Option A
  insert k v m i = if Prelude.◌==◌ i k then some v else m i

  unfoldable pub erase : ℕ → (ℕ → Option A) → ℕ → Option A
  erase k m i = if Prelude.◌==◌ i k then none else m i

module _ {D : Type 0} where
  -- `startUs ? (QpcNowUs() - startUs) / 1000.0 : 0.0`, where no entry is 0 as well.
  unfoldable pub duration : (ℤ → D) → D → Option ℕ → ℕ → D
  unfolding difference
  duration ms zero none clock = zero
  duration ms zero (some start) clock =
      if Prelude.◌==◌ start 0 then zero else ms (difference clock start)

  abbrev pub cell_body : String → D → Fields D
  cell_body cell duration_ms = field "cell" (str cell) (field "duration_ms" (num duration_ms) end)

  -- The masters of a file, without null pointers.
  unfoldable pub masters_of : List (Option String) → Values D
  masters_of [] = nil
  masters_of (none ∷ ms) = masters_of ms
  masters_of (some m ∷ ms) = cons (str m) (masters_of ms)

  unfoldable pub files_of : List (Option (String × List (Option String))) → Values D
  unfolding masters_of
  files_of [] = nil
  files_of (none ∷ fs) = files_of fs
  files_of (some (name, masters) ∷ fs) =
      cons (object (field "name" (str name) (field "masters" (array (masters_of masters)) end)))
        (files_of fs)

module _ {F D : Type 0} (dump : Value D → Option String) (ms : ℤ → D) (zero : D) where
  unfoldable pub emit : EventSources F D → D → String → Fields D → Outcome (EventSources F D)
  emit s now type body =
      if s.has_writer
      then elim (dump (object (field "type" (str type) (field "t" (num now) body)))) [
        | none ↦ threw s
        | some line ↦ done (record s { submitted = s.submitted ++ line ∷ [] })
      ]
      else done s

  unfoldable pub on_attach : EventSources F D → Cell → ℕ → EventSources F D
  unfolding insert cell_name note_cell_attach_start
  on_attach s cell clock = record s {
    attach_start_us = insert (cell.form_id) clock (s.attach_start_us);
    cache = note_cell_attach_start (s.cache) (cell_name cell);
  }

  unfoldable pub on_detach : EventSources F D → Cell → ℕ → D → Outcome (EventSources F D)
  unfolding erase cell_name emit duration
  on_detach s cell clock now =
      emit (record s { attach_start_us = erase (cell.form_id) (s.attach_start_us) }) now
        "event.cell_detach"
        (cell_body (cell_name cell) (duration ms zero (s.attach_start_us (cell.form_id)) clock))

  unfoldable pub on_attach_detach :
      EventSources F D → Option AttachDetach → ℕ → D → Outcome (EventSources F D)
  unfolding on_attach on_detach
  on_attach_detach s none clock now = done s
  on_attach_detach s (some event) clock now = elim (event.parent_cell) [
    | none ↦ done s
    | some parent ↦ elim parent [
      | none ↦ done s
      | some cell ↦
          let detached = on_detach s cell clock now in
          if event.attached then done (on_attach s cell clock) else detached
    ]
  ]

  unfoldable pub on_fully_loaded :
      EventSources F D → Option (Option Cell) → ℕ → D → Outcome (EventSources F D)
  unfolding cell_name emit duration note_cell_attach_complete
  on_fully_loaded s none clock now = done s
  on_fully_loaded s (some none) clock now = done s
  on_fully_loaded s (some (some cell)) clock now =
      emit (record s { cache = note_cell_attach_complete (s.cache) (cell_name cell) }) now
        "event.cell_attach"
        (cell_body (cell_name cell) (duration ms zero (s.attach_start_us (cell.form_id)) clock))

  -- The name, the name of the sender if there is one, and the arguments.
  unfoldable pub on_mod_event :
      EventSources F D
      → Option (String × Option String × String × D)
      → D
      → Outcome (EventSources F D)
  unfolding emit
  on_mod_event s none now = done s
  on_mod_event s (some (name, sender, str_arg, num_arg)) now = emit s now "event.mod_event" (
      field "name" (str name) (
        field "sender" (str (elim sender [ none ↦ "" | some who ↦ who ]))
          (field "str_arg" (str str_arg) (field "num_arg" (num num_arg) end))))

  unfoldable pub emit_save_event : EventSources F D → Option String → D → Outcome (EventSources F D)
  unfolding emit
  emit_save_event s name now =
      emit s now "event.save" (field "name" (str (elim name [ none ↦ "" | some n ↦ n ])) end)

  unfoldable pub emit_autosave_event : EventSources F D → D → Outcome (EventSources F D)
  unfolding emit
  emit_autosave_event s now = emit s now "event.autosave" end

  -- `EmitLoadOrder`; `none` while there is no data handler.
  unfoldable pub emit_load_order :
      EventSources F D
      → Option (List (Option (String × List (Option String))))
      → D
      → Outcome (EventSources F D)
  unfolding emit files_of
  emit_load_order s none now = done s
  emit_load_order s (some fs) now = emit s now "plugins" (field "files" (array (files_of fs)) end)

  -- `InstallAll`, which catches what the load order throws.
  unfoldable pub install_all :
      EventSources F D
      → Option (List (Option (String × List (Option String))))
      → D
      → EventSources F D
  unfolding emit_load_order
  install_all s order now = elim (emit_load_order (record s { has_writer = true }) order now) [
    | done s' ↦ s'
    | threw s' ↦ s'
  ]

-- ===== src/Events/Entries.antt =====
-- What the events of a cell leave of its entry (the `CellSink` of
-- plugin/src/samplers/event_sources.cpp).
use skygraph.Prelude.{
  ℕ, ◌≡◌, ◌≢◌, refl, ap, ◌∙◌, String, true, false, Option, none, some, List, [], ◌∷◌, ◌++◌, All,
  arith, if-all, Option-all,
}
use skygraph.Cpu.{ℤ}
use skygraph.Frame.Cache.{note_cell_attach_complete}
use skygraph.Plugin.Records.{Value, Fields, str, num, object, field}
use skygraph.Events.{
  Cell, EventSources, Outcome, done, threw, cell_name, insert, erase, emit, duration, cell_body,
  on_attach, on_detach, on_attach_detach, on_fully_loaded,
}

-- What the engine reports of a cell, with the clock and the wall clock of the handler.
pub data CellEvent (D : Type 0) : Type 0 where
  attached : Cell → ℕ → D → CellEvent D
  detached : Cell → ℕ → D → CellEvent D
  fully_loaded : Cell → ℕ → D → CellEvent D

-- It neither attaches nor detaches the cell of that id.
abbrev pub Elsewhere : {D : Type 0} → ℕ → CellEvent D → Type 0
Elsewhere id (attached c clock now) = c.form_id ≢ id
Elsewhere id (detached c clock now) = c.form_id ≢ id
Elsewhere id (fully_loaded c clock now) = Unit

abbrev pub state_of {ℓ} : {S : Type ℓ} → Outcome S → S
state_of (done s) = s
state_of (threw s) = s

insert_ne : (m : ℕ → Option ℕ) (k id v : ℕ) → k ≢ id → insert k v m id ≡ m id
unfolding insert
insert_ne m k id v h = ground (arith, h)

insert_same : (m : ℕ → Option ℕ) (k v : ℕ) → insert k v m k ≡ some v
unfolding insert
insert_same m k v = ground arith

erase_ne : (m : ℕ → Option ℕ) (k id : ℕ) → k ≢ id → erase k m id ≡ m id
unfolding erase
erase_ne m k id h = ground (arith, h)

erase_same : (m : ℕ → Option ℕ) (k : ℕ) → erase k m k ≡ none
unfolding erase
erase_same m k = ground arith

module _ {F D : Type 0} (dump : Value D → Option String) (ms : ℤ → D) (zero : D) where
  unfoldable pub handle : EventSources F D → CellEvent D → EventSources F D
  unfolding on_attach_detach on_fully_loaded
  handle s (attached c clock now) = state_of (
      on_attach_detach dump ms zero s
        (some (record { parent_cell = some (some c); attached = true })) clock now)
  handle s (detached c clock now) = state_of (
      on_attach_detach dump ms zero s
        (some (record { parent_cell = some (some c); attached = false })) clock now)
  handle s (fully_loaded c clock now) =
      state_of (on_fully_loaded dump ms zero s (some (some c)) clock now)

  unfoldable pub handle_all : EventSources F D → List (CellEvent D) → EventSources F D
  unfolding handle
  handle_all s [] = s
  handle_all s (e ∷ es) = handle_all (handle s e) es

  abbrev Keeps : EventSources F D → Outcome (EventSources F D) → Type 0
  Keeps s o =
      ((state_of o).attach_start_us ≡ s.attach_start_us) × ((state_of o).has_writer ≡ s.has_writer)

  emit-Keeps :
      (s : EventSources F D) (now : D) (type : String) (body : Fields D)
      → Keeps s (emit dump ms zero s now type body)
  unfolding emit
  emit-Keeps s now type body =
      if-all (Keeps s) (s.has_writer) _ (done s)
        (Option-all (Keeps s) (dump (object (field "type" (str type) (field "t" (num now) body))))
          (threw s) (λ line. done (record s { submitted = s.submitted ++ line ∷ [] })) (refl, refl)
          (λ line e. (refl, refl)))
        (refl, refl)

  -- What a handler leaves of the entry of a cell, and that it can submit.
  abbrev pub Entry : ℕ → Option ℕ → EventSources F D → Type 0
  Entry id start s = (s.attach_start_us id ≡ start) × (s.has_writer ≡ true)

  handle-Entry :
      (id : ℕ) (start : Option ℕ) (s : EventSources F D) (e : CellEvent D)
      → Elsewhere id e
      → Entry id start s
      → Entry id start (handle s e)
  unfolding handle on_attach_detach on_attach on_detach on_fully_loaded
  handle-Entry id start s (attached c clock now) h (e, w) =
      (insert_ne (s.attach_start_us) (c.form_id) id clock h ∙ e, w)
  handle-Entry id start s (detached c clock now) h (e, w) =
      let (p, q) =
        emit-Keeps (record s { attach_start_us = erase (c.form_id) (s.attach_start_us) }) now
          "event.cell_detach"
          (cell_body (cell_name c) (duration ms zero (s.attach_start_us (c.form_id)) clock)) in
      (ap (λ (m : ℕ → Option ℕ). m id) p ∙ erase_ne (s.attach_start_us) (c.form_id) id h ∙ e, q ∙ w)
  handle-Entry id start s (fully_loaded c clock now) h (e, w) =
      let (p, q) =
        emit-Keeps (record s { cache = note_cell_attach_complete (s.cache) (cell_name c) }) now
          "event.cell_attach"
          (cell_body (cell_name c) (duration ms zero (s.attach_start_us (c.form_id)) clock)) in
      (ap (λ (m : ℕ → Option ℕ). m id) p ∙ e, q ∙ w)

  pub handle_all-Entry :
      (id : ℕ) (start : Option ℕ) (s : EventSources F D) (es : List (CellEvent D))
      → All (Elsewhere id) es
      → Entry id start s
      → Entry id start (handle_all s es)
  unfolding handle_all
  handle_all-Entry id start s [] h e = e
  handle_all-Entry id start s (x ∷ es) h e =
      handle_all-Entry id start (handle s x) es h.1 (handle-Entry id start s x h.0 e)

  pub attached-Entry :
      (s : EventSources F D) (c : Cell) (clock : ℕ) (now : D)
      → s.has_writer ≡ true
      → Entry (c.form_id) (some clock) (handle s (attached c clock now))
  unfolding handle on_attach_detach on_attach
  attached-Entry s c clock now w = (insert_same (s.attach_start_us) (c.form_id) clock, w)

  pub detached-Entry :
      (s : EventSources F D) (c : Cell) (clock : ℕ) (now : D)
      → s.has_writer ≡ true
      → Entry (c.form_id) none (handle s (detached c clock now))
  unfolding handle on_attach_detach on_detach
  detached-Entry s c clock now w =
      let (p, q) =
        emit-Keeps (record s { attach_start_us = erase (c.form_id) (s.attach_start_us) }) now
          "event.cell_detach"
          (cell_body (cell_name c) (duration ms zero (s.attach_start_us (c.form_id)) clock)) in
      (
        ap (λ (m : ℕ → Option ℕ). m (c.form_id)) p ∙ erase_same (s.attach_start_us) (c.form_id),
        q ∙ w,
      )

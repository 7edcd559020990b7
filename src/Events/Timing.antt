-- ===== src/Events/Timing.antt =====
-- The times between the events of a cell (the `CellSink` of
-- plugin/src/samplers/event_sources.cpp).
use skygraph.Prelude.{
  ℕ, ◌≡◌, ◌≢◌, refl, sym, ap, ◌∙◌, String, true, Option, none, some, List, [], ◌∷◌, ◌++◌,
  if◌then◌else◌, All, arith, append-nil,
}
use skygraph.Cpu.{ℤ, difference}
use skygraph.Frame.Cache.{note_cell_attach_complete}
use skygraph.Plugin.Records.{Value, str, num, object, field}
use skygraph.Events.{
  Cell, EventSources, Outcome, done, threw, cell_name, erase, emit, duration, cell_body, on_detach,
  on_attach_detach, on_fully_loaded,
}
use skygraph.Events.Entries.{
  CellEvent, attached, detached, fully_loaded, Elsewhere, state_of, handle, handle_all, Entry,
  handle_all-Entry, attached-Entry, detached-Entry,
}

module _ {D : Type 0} (dump : Value D → Option String) where
  -- The record of an event of a cell, if it can be written.
  abbrev pub written : String → Cell → D → D → List String
  written type c now d =
      elim (dump
        (object (field "type" (str type) (field "t" (num now) (cell_body (cell_name c) d))))) [
          | none ↦ []
          | some line ↦ line ∷ []
        ]

module _ {D : Type 0} (ms : ℤ → D) (zero : D) where
  duration-some :
      (start clock : ℕ)
      → start ≢ 0
      → duration ms zero (some start) clock ≡ ms (difference clock start)
  unfolding duration
  duration-some start clock h = ground (arith, h)

  duration-none : (clock : ℕ) → duration ms zero none clock ≡ zero
  unfolding duration
  duration-none clock = refl

module _ {F D : Type 0} (dump : Value D → Option String) (ms : ℤ → D) (zero : D) where
  -- The writing of a record.
  abbrev answered : EventSources F D → Option String → Outcome (EventSources F D)
  answered s o = elim o [
    | none ↦ threw s
    | some line ↦ done (record s { submitted = s.submitted ++ line ∷ [] })
  ]

  answered-submitted :
      (s : EventSources F D) (o : Option String)
      → (state_of (answered s o)).submitted
        ≡ s.submitted ++ elim o [ none ↦ [] | some line ↦ line ∷ [] ]
  answered-submitted s none = sym (append-nil s.submitted)
  answered-submitted s (some line) = refl

  emit-submitted :
      (s : EventSources F D) (now : D) (type : String) (c : Cell) (d : D)
      → s.has_writer ≡ true
      → (state_of (emit dump ms zero s now type (cell_body (cell_name c) d))).submitted
        ≡ s.submitted ++ written dump type c now d
  unfolding emit
  emit-submitted s now type c d w =
      let o =
        dump (object (field "type" (str type) (field "t" (num now) (cell_body (cell_name c) d)))) in
      ap (λ b. (state_of (if b then answered s o else done s)).submitted) w ∙ answered-submitted s o

  detached-submitted :
      (s : EventSources F D) (c : Cell) (clock : ℕ) (now : D) (start : Option ℕ)
      → Entry dump ms zero (c.form_id) start s
      → (handle dump ms zero s (detached c clock now)).submitted
        ≡ s.submitted ++ written dump "event.cell_detach" c now (duration ms zero start clock)
  unfolding handle on_attach_detach on_detach
  detached-submitted s c clock now start (e, w) =
      emit-submitted (record s { attach_start_us = erase (c.form_id) (s.attach_start_us) }) now
        "event.cell_detach" c (duration ms zero (s.attach_start_us (c.form_id)) clock) w
      ∙ ap (λ o. s.submitted ++ written dump "event.cell_detach" c now (duration ms zero o clock)) e

  loaded-submitted :
      (s : EventSources F D) (c : Cell) (clock : ℕ) (now : D) (start : Option ℕ)
      → Entry dump ms zero (c.form_id) start s
      → (handle dump ms zero s (fully_loaded c clock now)).submitted
        ≡ s.submitted ++ written dump "event.cell_attach" c now (duration ms zero start clock)
  unfolding handle on_fully_loaded
  loaded-submitted s c clock now start (e, w) =
      emit-submitted (record s { cache = note_cell_attach_complete (s.cache) (cell_name c) }) now
        "event.cell_attach" c (duration ms zero (s.attach_start_us (c.form_id)) clock) w
      ∙ ap (λ o. s.submitted ++ written dump "event.cell_attach" c now (duration ms zero o clock)) e

  -- A cell is attached at the clock `t0` (not zero), and then come any events of other cells and any
  -- loads: a load of the cell at `t1` is reported with t1 - t0, and its detach at `t2` with t2 - t0.
  -- After that detach and more such events, another detach of the cell is reported with 0. A report
  -- that cannot be written is left out.
  pub attach-durations :
      (s : EventSources F D) (c : Cell) (t0 t1 t2 t3 : ℕ) (w0 w1 w2 w3 : D)
      (es es' : List (CellEvent D))
      → s.has_writer ≡ true
      → t0 ≢ 0
      → All (Elsewhere (c.form_id)) es
      → All (Elsewhere (c.form_id)) es'
      → let s1 = handle_all dump ms zero (handle dump ms zero s (attached c t0 w0)) es in
        let s2 = handle_all dump ms zero (handle dump ms zero s1 (detached c t2 w2)) es' in
        ((handle dump ms zero s1 (fully_loaded c t1 w1)).submitted
          ≡ s1.submitted ++ written dump "event.cell_attach" c w1 (ms (difference t1 t0)))
        × ((handle dump ms zero s1 (detached c t2 w2)).submitted
            ≡ s1.submitted ++ written dump "event.cell_detach" c w2 (ms (difference t2 t0)))
        × ((handle dump ms zero s2 (detached c t3 w3)).submitted
            ≡ s2.submitted ++ written dump "event.cell_detach" c w3 zero)
  attach-durations s c t0 t1 t2 t3 w0 w1 w2 w3 es es' w h q q' =
      let s1 = handle_all dump ms zero (handle dump ms zero s (attached c t0 w0)) es in
      let s2 = handle_all dump ms zero (handle dump ms zero s1 (detached c t2 w2)) es' in
      let e1 =
        handle_all-Entry dump ms zero (c.form_id) (some t0)
          (handle dump ms zero s (attached c t0 w0)) es q
          (attached-Entry dump ms zero s c t0 w0 w) in
      let e2 =
        handle_all-Entry dump ms zero (c.form_id) none (handle dump ms zero s1 (detached c t2 w2))
          es' q' (detached-Entry dump ms zero s1 c t2 w2 e1.1) in
      (
        loaded-submitted s1 c t1 w1 (some t0) e1
            ∙ ap (λ d. s1.submitted ++ written dump "event.cell_attach" c w1 d)
                (duration-some ms zero t0 t1 h),
        detached-submitted s1 c t2 w2 (some t0) e1
            ∙ ap (λ d. s1.submitted ++ written dump "event.cell_detach" c w2 d)
                (duration-some ms zero t0 t2 h),
        detached-submitted s2 c t3 w3 none e2
            ∙ ap (λ d. s2.submitted ++ written dump "event.cell_detach" c w3 d)
                (duration-none ms zero t3),
      )

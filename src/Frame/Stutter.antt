-- ===== src/Frame/Stutter.antt =====
-- plugin/src/diagnostics/stutter_flagger.cpp: when a frame is reported as a stutter, and with what.
use skygraph.Prelude.{
  ℕ, ◌≡◌, refl, ◌⊎◌, inl, inr, String, Bool, true, false, not, ◌||◌, Option, none, some, List,
  if◌then◌else◌,
}
use skygraph.Cpu.{Snapshot}
use skygraph.Attribution.{Entry}
use skygraph.Frame.{Floats, known_ms}
use skygraph.Frame.Cache.{LatestCache, vram_headroom_mb, actor_counts, in_flight_cell_load}

pub record StutterState (F : Type 0) : Type 0 where
  pub enabled : Bool
  pub ratio : F
  pub min_frame_ms : F
  pub has_writer : Bool

-- The record that is submitted.
pub record StutterRecord (F : Type 0) : Type 0 where
  pub frame_ms : F
  pub p50_ms : F
  pub ratio : F
  pub breakdown : Snapshot F
  pub other_ms : F
  pub cpu_ms : F
  pub cell : String
  pub in_flight_cell_load : String
  pub top_papyrus : List Entry
  pub actor_counts : ℕ × ℕ × ℕ × ℕ
  pub vram_headroom_mb : F
  pub page_faults_per_sec : F
  pub streaming_queue_depth : ℕ

module _ {F : Type 0} (fl : Floats F) where
  unfoldable pub configure : StutterState F → Bool → F → F → Bool → StutterState F
  configure s enabled ratio min_ms writer = record {
    enabled = enabled;
    ratio = ratio;
    min_frame_ms = min_ms;
    has_writer = writer;
  }

  -- The snapshot; `top` is what the attribution returns for the top 8 without decay.
  unfoldable pub stutter_record :
      {D : Type 0} → LatestCache F D → List Entry → F → F → F → Snapshot F → StutterRecord F
  unfolding vram_headroom_mb actor_counts in_flight_cell_load
  stutter_record cache top dt cpu p50 bd = record {
    frame_ms = dt;
    p50_ms = p50;
    ratio = fl.div dt p50;
    breakdown = bd;
    other_ms = fl.sub cpu (known_ms fl bd);
    cpu_ms = cpu;
    cell = cache.cell_name;
    in_flight_cell_load = in_flight_cell_load cache;
    top_papyrus = top;
    actor_counts = actor_counts cache;
    vram_headroom_mb = vram_headroom_mb fl.sub cache;
    page_faults_per_sec = cache.faults;
    streaming_queue_depth = cache.stream_queue;
  }

  unfoldable pub on_frame :
      {D : Type 0}
      → StutterState F
      → LatestCache F D
      → List Entry
      → F
      → F
      → F
      → Snapshot F
      → Option (StutterRecord F)
  unfolding stutter_record
  on_frame s cache top dt cpu p50 bd =
      if not s.enabled || not s.has_writer
      then none
      else if fl.less dt s.min_frame_ms
      then none
      else if fl.less_eq p50 fl.zero_float
      then none
      else if fl.less (fl.div dt p50) s.ratio
      then none
      else some (stutter_record cache top dt cpu p50 bd)

  -- A frame is a stutter for a flagger.
  abbrev pub IsStutter : StutterState F → F → F → Type 0
  IsStutter s dt p50 =
      (s.enabled ≡ true)
      × (s.has_writer ≡ true)
      × (fl.less dt s.min_frame_ms ≡ false)
      × (fl.less_eq p50 fl.zero_float ≡ false)
      × (fl.less (fl.div dt p50) s.ratio ≡ false)

  gates :
      {R : Type 0} (a b c d e : Bool) (r : R)
      → (((a ≡ true) × (b ≡ true) × (c ≡ false) × (d ≡ false) × (e ≡ false))
          × ((if not a || not b
                then none
                else if c
                then none
                else if d
                then none
                else if e
                then none
                else some r)
              ≡ some r))
        ⊎ (¬ ((a ≡ true) × (b ≡ true) × (c ≡ false) × (d ≡ false) × (e ≡ false))
            × ((if not a || not b
                  then none
                  else if c
                  then none
                  else if d
                  then none
                  else if e
                  then none
                  else some r)
                ≡ none))
  gates false b c d e r = inr (λ t. cc t.0, refl)
  gates true false c d e r = inr (λ t. cc t.1, refl)
  gates true true true d e r = inr (λ t. cc t.2, refl)
  gates true true false true e r = inr (λ t. cc t.3, refl)
  gates true true false false true r = inr (λ t. cc t.4, refl)
  gates true true false false false r = inl ((refl, refl, refl, refl, refl), refl)

  -- A frame is reported just when the flagger is enabled and has a writer, the frame is not below
  -- the least time, the median is above zero and the ratio of the two is not below the configured
  -- one; then with the full record, otherwise not at all.
  pub on_frame_lem :
      {D : Type 0} (s : StutterState F) (cache : LatestCache F D) (top : List Entry)
      (dt cpu p50 : F) (bd : Snapshot F)
      → (IsStutter s dt p50
          × (on_frame s cache top dt cpu p50 bd ≡ some (stutter_record cache top dt cpu p50 bd)))
        ⊎ (¬ IsStutter s dt p50 × (on_frame s cache top dt cpu p50 bd ≡ none))
  unfolding on_frame
  on_frame_lem s cache top dt cpu p50 bd =
      gates s.enabled s.has_writer (fl.less dt s.min_frame_ms) (fl.less_eq p50 fl.zero_float)
        (fl.less (fl.div dt p50) s.ratio) (stutter_record cache top dt cpu p50 bd)

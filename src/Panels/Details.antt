-- ===== src/Panels/Details.antt =====
-- `DrawDetails` of viewer/src/panels/stutter_panel.cpp: the lines of text for a stutter. What
-- nlohmann/json throws leaves the function: then the result is `none`.
use text.Mathlib.Text.{◌==◌}
use skygraph.Prelude.{ℕ, String, ◌>>=◌, Option, none, some, List, [], ◌∷◌, ◌++◌, if◌then◌else◌}
use skygraph.Store.{StutterEntry}

-- What the panel uses of a value. `members` are the keys and values of an object, in the order in
-- which they are iterated (none for what is no object); `value_u32` and `value_u64` are
-- `value(key, 0)` and `value_string` is `value(key, "")`.
pub record DetailJson (J F : Type 0) : Type 0 where
  pub members : J → Option (List (String × J))
  pub find : J → String → Option J
  pub as_string : J → Option String
  pub as_array : J → Option (List J)
  pub get_float : J → Option F
  pub get_u32 : J → Option ℕ
  pub value_u32 : J → String → Option ℕ
  pub value_u64 : J → String → Option ℕ
  pub value_string : J → String → Option String

pub data Line (F : Type 0) : Type 0 where
  heading : F → F → F → Line F
  rule : Line F
  no_snapshot : Line F
  breakdown_title : Line F
  part : String → F → Line F
  cell : String → Line F
  in_flight : String → Line F
  headroom : F → Line F
  faults : F → Line F
  queue : ℕ → Line F
  actors : ℕ → ℕ → ℕ → ℕ → Line F
  scripts_title : Line F
  script : String → ℕ → Line F

module _ {J F : Type 0} (json : DetailJson J F) where
  unfoldable pub parts : List (String × J) → Option (List (Line F))
  parts [] = some []
  parts ((key, v) ∷ ms) = do ms_of ← json.get_float v; rest ← parts ms; some (part key ms_of ∷ rest)

  unfoldable pub scripts : List J → Option (List (Line F))
  scripts [] = some []
  scripts (v ∷ vs) = do
    name ← json.value_string v "name"
    us ← json.value_u64 v "us"
    rest ← scripts vs
    some (script name us ∷ rest)

  -- The lines of a member, if there is one.
  abbrev pub lines_of : Option J → (J → Option (List (Line F))) → Option (List (Line F))
  lines_of none lines = some []
  lines_of (some v) lines = lines v

  abbrev pub if_some :
      {A : Type 0} → Option A → (A → Option (List (Line F))) → Option (List (Line F))
  if_some none lines = some []
  if_some (some a) lines = lines a

  abbrev pub script_lines : List J → Option (List (Line F))
  script_lines [] = some []
  script_lines (v ∷ vs) = do ss ← scripts (v ∷ vs); some (rule ∷ scripts_title ∷ ss)

  abbrev pub actor_line : J → Option (List (Line F))
  actor_line v = do
    high ← json.value_u32 v "high"
    mid_high ← json.value_u32 v "mid_high"
    mid_low ← json.value_u32 v "mid_low"
    low ← json.value_u32 v "low"
    some (actors high mid_high mid_low low ∷ [])

  -- What follows the first rule, for a snapshot that is an object.
  unfoldable pub snapshot_lines : J → Option (List (Line F))
  unfolding parts scripts
  snapshot_lines s = do
    breakdown ←
        lines_of (json.find s "cpu_breakdown")
          (λ v. if_some (json.members v) (λ ms. do ps ← parts ms; some (breakdown_title ∷ ps)))
    in_cell ←
        lines_of (json.find s "cell") (λ v. if_some (json.as_string v) (λ c. some (cell c ∷ [])))
    loading ←
        lines_of (json.find s "in_flight_cell_load")
          (λ v. if_some (json.as_string v) (λ c. some (if c == "" then [] else in_flight c ∷ [])))
    vram ←
        lines_of (json.find s "vram_headroom_mb")
          (λ v. do x ← json.get_float v; some (headroom x ∷ []))
    paging ←
        lines_of (json.find s "page_faults_per_sec")
          (λ v. do x ← json.get_float v; some (faults x ∷ []))
    depth ←
        lines_of (json.find s "streaming_queue_depth")
          (λ v. do n ← json.get_u32 v; some (queue n ∷ []))
    people ←
        lines_of (json.find s "actor_counts") (λ v. if_some (json.members v) (λ ms. actor_line v))
    top ← lines_of (json.find s "top_papyrus") (λ v. if_some (json.as_array v) script_lines)
    some (
        breakdown
        ++ (rule ∷ (in_cell ++ (loading ++ (vram ++ (paging ++ (depth ++ (people ++ top))))))))

  unfoldable pub draw_details : {D : Type 0} → StutterEntry J F D → Option (List (Line F))
  unfolding snapshot_lines
  draw_details e =
      let head = heading (e.frame_ms) (e.p50_ms) (e.ratio) ∷ rule ∷ [] in
      elim (json.members (e.snapshot)) [
        | none ↦ some (head ++ no_snapshot ∷ [])
        | some ms ↦ elim (snapshot_lines (e.snapshot)) [
          | none ↦ none
          | some lines ↦ some (head ++ lines)
        ]
      ]

-- ===== src/Protocol.antt =====
-- protocol/include/skygraph/protocol/messages.h: the types of the records and the shapes that its
-- comments give them, with the versions of version.h. A JSON number is a `nat` or a `num`.
pub mod Hello
pub mod Lists
pub mod Typed
mod Tests
use text.Mathlib.Text.{◌==◌}
use skygraph.Prelude.{ℕ, String, Bool, true, false, ◌&&◌, Option, none, some, if◌then◌else◌}
use skygraph.Plugin.Records.{
  Value, Fields, Values, null, str, nat, negative, num, object, array, nil, cons, lookup,
}

pub data Message : Type 0 where
  hello heartbeat plugins : Message
  frame cpu_breakdown : Message
  papyrus_snapshot papyrus_top streaming : Message
  memory memory_pressure state : Message
  cell_attach cell_detach save autosave mod_event streaming_hitch stutter crash : Message

unfoldable pub type_name : Message → String
type_name hello = "hello"
type_name heartbeat = "heartbeat"
type_name plugins = "plugins"
type_name frame = "frame"
type_name cpu_breakdown = "cpu_breakdown"
type_name papyrus_snapshot = "papyrus.snapshot"
type_name papyrus_top = "papyrus.top"
type_name streaming = "streaming"
type_name memory = "memory"
type_name memory_pressure = "memory.pressure"
type_name state = "state"
type_name cell_attach = "event.cell_attach"
type_name cell_detach = "event.cell_detach"
type_name save = "event.save"
type_name autosave = "event.autosave"
type_name mod_event = "event.mod_event"
type_name streaming_hitch = "event.streaming_hitch"
type_name stutter = "event.stutter"
type_name crash = "event.crash"

mutual
  pub data Shape : Type 0 where
    string whole number : Shape
    list_of : Shape → Shape
    members_of : Members → Shape

  pub data Members : Type 0 where
    no_more : Members
    member : String → Shape → Members → Members

-- What follows the type and the time in the comments. (Of a save, see `Typed`.)
abbrev pub times : Members
times = member "papyrus_ms" number (
    member "havok_ms" number (
      member "ai_ms" number (
        member "render_submit_ms" number
          (member "streaming_ms" number (member "other_ms" number no_more)))))

abbrev pub cell_event : Members
cell_event = member "cell" string (member "duration_ms" number no_more)

abbrev pub counts : Members
counts =
    member "high" whole
      (member "mid_high" whole (member "mid_low" whole (member "low" whole no_more)))

unfoldable pub members : Message → Members
members hello =
    member "protocol" (members_of (member "major" whole (member "minor" whole no_more))) (
      member "product" (members_of (member "name" string (member "version" string no_more)))
        (member "game_runtime" string no_more))
members heartbeat = member "seq" whole (member "uptime_sec" number no_more)
members plugins =
    member "files"
      (list_of (members_of (member "name" string (member "masters" (list_of string) no_more))))
      no_more
members frame =
    member "dt_ms" number
      (member "fps" number (member "cpu_frame_ms" number (member "gpu_frame_ms" number no_more)))
members cpu_breakdown = times
members papyrus_snapshot =
    member "active" whole (member "suspended" whole (member "latent" whole no_more))
members papyrus_top =
    member "scripts"
      (list_of (
        members_of (
          member "name" string
            (member "us_window" whole (member "cps" number (member "pct_frame" number no_more))))))
      no_more
members streaming =
    member "queue_depth" whole (member "bytes_per_sec" number (member "in_flight" whole no_more))
members memory = member "working_set_mb" number (
    member "private_mb" number
      (member "vram_used_mb" number (member "vram_budget_mb" number no_more)))
members memory_pressure =
    member "page_faults_per_sec" number
      (member "commit_charge_mb" number (member "commit_limit_mb" number no_more))
members state = member "cell" string (
    member "worldspace" string (
      member "player_pos" (list_of number)
        (member "actor_counts" (members_of counts) (member "loaded_refs" whole no_more))))
members cell_attach = cell_event
members cell_detach = cell_event
members save =
    member "kind" string
      (member "slot" whole (member "name" string (member "duration_ms" number no_more)))
members autosave = no_more
members mod_event = member "name" string (member "sender" string no_more)
members streaming_hitch =
    member "path" string (member "duration_ms" number (member "bytes" whole no_more))
members stutter = member "frame_ms" number (
    member "p50_ms" number (
      member "ratio" number (
        member "snapshot"
          (members_of (
            member "cpu_breakdown" (members_of times) (
              member "cell" string (
                member "in_flight_cell_load" string (
                  member "top_papyrus"
                    (list_of (members_of (member "name" string (member "us" whole no_more))))
                    (member "actor_counts" (members_of counts) (
                      member "vram_headroom_mb" number (
                        member "page_faults_per_sec" number
                          (member "streaming_queue_depth" whole no_more)))))))))
          no_more)))
members crash = member "code" string (member "module" string (member "rip" string no_more))

abbrev pub fits_some : {D : Type 0} → (Value D → Bool) → Option (Value D) → Bool
fits_some test none = false
fits_some test (some v) = test v

abbrev pub each : {D : Type 0} → (Value D → Bool) → Values D → Bool
each test nil = true
each test (cons v vs) = test v && each test vs

-- Is a value of that shape? More members than named are allowed.
unfoldable mutual
  pub fits : {D : Type 0} → Shape → Value D → Bool
  fits string (str s) = true
  fits whole (nat n) = true
  fits whole (negative n) = true
  fits number (nat n) = true
  fits number (negative n) = true
  fits number (num d) = true
  fits (list_of s) (array vs) = each (fits s) vs
  fits (members_of ms) (object fs) = has ms fs
  fits _ _ = false

  pub has : {D : Type 0} → Members → Fields D → Bool
  has no_more fs = true
  has (member k s ms) fs = fits_some (fits s) (lookup fs k) && has ms fs

-- An object of a type, with a time.
unfoldable pub is_message : {D : Type 0} → Message → Value D → Bool
unfolding has type_name members
is_message m (object fs) =
    elim (lookup fs "type") [
      | none ↦ false
      | some v ↦ elim v [
        | null ↦ false
        | str s ↦ s == type_name m
        | nat n ↦ false
        | negative n ↦ false
        | num d ↦ false
        | object os ↦ false
        | array vs ↦ false
      ]
    ]
    && fits_some (fits number) (lookup fs "t")
    && has (members m) fs
is_message m _ = false

-- ===== src/Protocol/Hello.antt =====
-- `EmitHello` of plugin/src/plugin.cpp, the versions of
-- protocol/include/skygraph/protocol/version.h, and what the viewer makes of the record.
use skygraph.Prelude.{
  ℕ, ◌+◌, ◌%◌, ◌^◌, ◌≡◌, refl, ap, ◌∙◌, String, Option, none, some, List, [], ◌∷◌, ◌++◌, arith,
}
use skygraph.Plugin.Records.{Value, Fields, str, nat, num, object, end, field, lookup}
use skygraph.Plugin.Decode.{Decodes, string_of-str, u32_of-nat}
use skygraph.Store.{TelemetryStore, ConnectionInfo}
use skygraph.Store.Json.{Json, string_of, u32_of, get}
use skygraph.Store.Decode.{Arg, connection_of, member}
use skygraph.Store.Ingest.{done, ingest, route, kind_of}
use skygraph.Plugin.{Globals}
use skygraph.Plugin.Records.{PluginJson}

abbrev pub protocol_major : ℕ
protocol_major = 1

abbrev pub protocol_minor : ℕ
protocol_minor = 0

abbrev pub product_name : String
product_name = "skygraph"

module _ {D : Type 0} where
  abbrev pub versions : Fields D
  versions = field "major" (nat protocol_major) (field "minor" (nat protocol_minor) end)

  abbrev pub product : Fields D
  product = field "name" (str product_name) (field "version" (str "0.1.2") end)

  -- `none` where the version of the game could not be read.
  abbrev pub runtime : Option String → Fields D
  runtime none = end
  runtime (some version) = field "game_runtime" (str version) end

  abbrev pub hello_fields : D → Option String → Fields D
  hello_fields now version = field "type" (str "hello") (
      field "t" (num now)
        (field "protocol" (object versions) (field "product" (object product) (runtime version))))

  unfoldable pub hello_record : D → Option String → Value D
  hello_record now version = object (hello_fields now version)

  -- `none` where `dump` throws, which nothing catches.
  unfoldable pub emit_hello :
      {J P W : Type 0} → PluginJson D J P → Globals P W → D → Option String → Option (Globals P W)
  unfolding hello_record
  emit_hello json s now version = elim (json.dump (hello_record now version)) [
    | none ↦ none
    | some line ↦ some (record s { submitted = s.submitted ++ line ∷ [] })
  ]

module _ {D J F D' : Type 0} (view : Json J F D') (of : Value D → J) (float : D → F)
    (double : D → D') (decodes : Decodes view of float double)
    (format : String → List (Arg F) → String) (now : D) where
  -- The game's version as the viewer shows it.
  abbrev pub shown_runtime : Option String → String
  shown_runtime none = ""
  shown_runtime (some version) = version

  abbrev pub connected : Option String → ℕ → ConnectionInfo
  connected version time = record {
    product_version = "0.1.2";
    game_runtime = shown_runtime version;
    protocol_major = protocol_major;
    protocol_minor = protocol_minor;
    first_seen = time;
  }

  runtime-some :
      (version : String)
      → string_of view (of (object (hello_fields now (some version)))) "game_runtime" ≡ version
  unfolding lookup
  runtime-some version =
      string_of-str view of float double decodes (hello_fields now (some version)) "game_runtime"
        version refl

  runtime-none :
      view.find (of (object (hello_fields now none))) "game_runtime" ≡ none
      → string_of view (of (object (hello_fields now none))) "game_runtime" ≡ ""
  unfolding get
  runtime-none h = rw (h, get) refl

  shown-runtime :
      (version : Option String)
      → view.find (of (object (hello_fields now none))) "game_runtime" ≡ none
      → string_of view (of (object (hello_fields now version))) "game_runtime"
        ≡ shown_runtime version
  shown-runtime none h = runtime-none h
  shown-runtime (some version) h = runtime-some version

  connection_of_lem :
      (version : Option String) (time : ℕ)
      → view.find (of (object (hello_fields now none))) "game_runtime" ≡ none
      → connection_of view format (of (object (hello_fields now version))) time
        ≡ connected version time
  unfolding connection_of lookup
  connection_of_lem version time h =
      let fs = hello_fields now version in
      let p =
        ap (λ o. member o (λ q. string_of view q "version") "")
          (decodes.find_object fs "product" (object product) refl)
        ∙ string_of-str view of float double decodes product "version" "0.1.2" refl in
      let a =
        ap (λ o. member o (λ q. u32_of view q "major") 0)
          (decodes.find_object fs "protocol" (object versions) refl)
        ∙ u32_of-nat view of float double decodes versions "major" 1 refl (omega arith) in
      let i =
        ap (λ o. member o (λ q. u32_of view q "minor") 0)
          (decodes.find_object fs "protocol" (object versions) refl)
        ∙ u32_of-nat view of float double decodes versions "minor" 0 refl (omega arith) in
      cc (p, a, i, shown-runtime version h)

  -- A viewer's store that ingests the hello record shows the version 0.1.2 of the product, the
  -- version of the game (nothing if the plugin could not read it) and the protocol 1.0, first seen
  -- then; the record is counted and nothing else changes. Relied on: members that were written are
  -- found and read back, and one that was not written is not found.
  pub hello-connection :
      (version : Option String) (store : TelemetryStore J F D') (time : ℕ)
      → view.find (of (object (hello_fields now none))) "game_runtime" ≡ none
      → ingest view format store (of (hello_record now version)) time
        ≡ done (record store {
          total_records = (store.total_records + 1) % 2 ^ 64;
          connection = some (connected version time);
        })
  unfolding ingest route lookup hello_record
  hello-connection version store time h =
      let fs = hello_fields now version in
      ap
        (λ ty.
          route view format (record store { total_records = (store.total_records + 1) % 2 ^ 64 })
            (of (object fs)) time ty (kind_of ty))
        (string_of-str view of float double decodes fs "type" "hello" refl)
      ∙ ap
          (λ c. done (record store {
            total_records = (store.total_records + 1) % 2 ^ 64;
            connection = some c;
          }))
          (connection_of_lem version time h)

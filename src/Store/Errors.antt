-- ===== src/Store/Errors.antt =====
-- When `TelemetryStore::Ingest` throws.
use skygraph.Prelude.{
  ℕ, ◌+◌, ◌%◌, ◌^◌, ◌≡◌, ◌≢◌, refl, sym, ap, ◌∙◌, ◌⊎◌, inl, inr, String, Option, none, some, List,
  [], ◌∷◌, ◌>>=◌, Option-cases,
}
use skygraph.Store.{TelemetryStore}
use skygraph.Store.Json.{Json, string_of}
use skygraph.Store.Decode.{Arg, origin, position_in, position_of, snapshot_of}
use skygraph.Store.Ingest.{
  Kind, untyped, hello, heartbeat, frame, cpu_breakdown, memory, pressure, state, papyrus_snapshot,
  papyrus_top, plugins, stutter, event, streaming, ack, unknown, kind_of, done, threw, ingest_state,
  route, ingest,
}

module _ {J F D : Type 0} (json : Json J F D) (format : String → List (Arg F) → String) where
  -- A position of three elements, one of which get<float> throws for.
  abbrev pub BadPosition : J → Type 0
  BadPosition r =
      (p : J) × (x : J) × (y : J) × (z : J) × (json.find r "player_pos" ≡ some p)
      × (json.elements p ≡ some (x ∷ y ∷ z ∷ []))
      × ((json.get_float x ≡ none) ⊎ ((json.get_float y ≡ none) ⊎ (json.get_float z ≡ none)))

  all_found :
      (a b c : Option F) (f : F → F → F → F × F × F)
      → (a >>= λ x. b >>= λ y. c >>= λ z. some (f x y z)) ≡ none
      → (a ≡ none) ⊎ ((b ≡ none) ⊎ (c ≡ none))
  all_found none b c f h = inl refl
  all_found (some x) none c f h = inr (inl refl)
  all_found (some x) (some y) none f h = inr (inr refl)
  all_found (some x) (some y) (some z) f h = cc h

  position_in-none :
      (js : List J)
      → position_in json format js ≡ none
      → (x : J) × (y : J) × (z : J) × (js ≡ x ∷ y ∷ z ∷ [])
        × ((json.get_float x ≡ none) ⊎ ((json.get_float y ≡ none) ⊎ (json.get_float z ≡ none)))
  unfolding position_in
  position_in-none [] h = cc h
  position_in-none (x ∷ []) h = cc h
  position_in-none (x ∷ (y ∷ [])) h = cc h
  position_in-none (x ∷ (y ∷ (z ∷ []))) h =
      (x, y, z, refl, all_found (json.get_float x) (json.get_float y) (json.get_float z) _ h)
  position_in-none (x ∷ (y ∷ (z ∷ (w ∷ js)))) h = cc h

  one_missing :
      (a b c : Option F) (f : F → F → F → F × F × F)
      → (a ≡ none) ⊎ ((b ≡ none) ⊎ (c ≡ none))
      → (a >>= λ x. b >>= λ y. c >>= λ z. some (f x y z)) ≡ none
  one_missing none b c f h = refl
  one_missing (some x) none c f h = refl
  one_missing (some x) (some y) none f h = refl
  one_missing (some x) (some y) (some z) f (inl e) = cc e
  one_missing (some x) (some y) (some z) f (inr (inl e)) = cc e
  one_missing (some x) (some y) (some z) f (inr (inr e)) = cc e

  position_of-in :
      (r p : J) (js : List J)
      → json.find r "player_pos" ≡ some p
      → json.elements p ≡ some js
      → position_of json format r ≡ position_in json format js
  unfolding position_of
  position_of-in r p js e f = rw (e, f) refl

  position_of-absent :
      (r : J)
      → json.find r "player_pos" ≡ none
      → position_of json format r ≡ some (origin json format)
  unfolding position_of
  position_of-absent r e = rw e refl

  position_of-other :
      (r p : J)
      → json.find r "player_pos" ≡ some p
      → json.elements p ≡ none
      → position_of json format r ≡ some (origin json format)
  unfolding position_of
  position_of-other r p e f = rw (e, f) refl

  position_of-none : (r : J) → position_of json format r ≡ none → BadPosition r
  position_of-none r h = elim (Option-cases (json.find r "player_pos")) [
    | inl e ↦ cc (h, position_of-absent r e)
    | inr (p, e) ↦ elim (Option-cases (json.elements p)) [
      | inl f ↦ cc (h, position_of-other r p e f)
      | inr (js, f) ↦
          let (x, y, z, g, k) = position_in-none js (sym (position_of-in r p js e f) ∙ h) in
          (p, x, y, z, e, f ∙ ap some g, k)
    ]
  ]

  position_of-BadPosition : (r : J) → BadPosition r → position_of json format r ≡ none
  unfolding position_in
  position_of-BadPosition r (p, x, y, z, e, f, k) =
      position_of-in r p (x ∷ y ∷ z ∷ []) e f
      ∙ one_missing (json.get_float x) (json.get_float y) (json.get_float z) _ k

  abbrev pub kind : J → Kind
  kind r = kind_of (string_of json r "type")

  abbrev pub counted : TelemetryStore J F D → TelemetryStore J F D
  counted s = record s { total_records = (s.total_records + 1) % 2 ^ 64 }

  abbrev pub Throws : J → Type 0
  Throws r = (kind r ≡ state) × BadPosition r

  state-threw :
      (s : TelemetryStore J F D) (r : J)
      → position_of json format r ≡ none
      → ingest_state json format s r ≡ threw s
  unfolding ingest_state
  state-threw s r e = rw (e, ingest_state) refl

  state-done :
      (s : TelemetryStore J F D) (r : J) (q : F × F × F)
      → position_of json format r ≡ some q
      → ingest_state json format s r
        ≡ done (record s { last_state = some (snapshot_of json format r q) })
  unfolding ingest_state
  state-done s r q e = rw (e, ingest_state) refl

  -- Every branch but that of `state` returns.
  route-done :
      (s : TelemetryStore J F D) (r : J) (now : ℕ) (type : String) (k : Kind)
      → (k ≡ state)
        ⊎ ((k ≢ state)
            × ((s' : TelemetryStore J F D) × (route json format s r now type k ≡ done s')))
  unfolding route
  route-done s r now type untyped = inr (λ e. cc e, (_, refl))
  route-done s r now type hello = inr (λ e. cc e, (_, refl))
  route-done s r now type heartbeat = inr (λ e. cc e, (_, refl))
  route-done s r now type frame = inr (λ e. cc e, (_, refl))
  route-done s r now type cpu_breakdown = inr (λ e. cc e, (_, refl))
  route-done s r now type memory = inr (λ e. cc e, (_, refl))
  route-done s r now type pressure = inr (λ e. cc e, (_, refl))
  route-done s r now type state = inl refl
  route-done s r now type papyrus_snapshot = inr (λ e. cc e, (_, refl))
  route-done s r now type papyrus_top = inr (λ e. cc e, (_, refl))
  route-done s r now type plugins = inr (λ e. cc e, (_, refl))
  route-done s r now type stutter = inr (λ e. cc e, (_, refl))
  route-done s r now type event = inr (λ e. cc e, (_, refl))
  route-done s r now type streaming = inr (λ e. cc e, (_, refl))
  route-done s r now type ack = inr (λ e. cc e, (_, refl))
  route-done s r now type unknown = inr (λ e. cc e, (_, refl))

  -- `Ingest` throws just when the record is a `state` record whose `player_pos` is an array of three
  -- elements for one of which `get<float>` throws; then it has counted the record and changed nothing
  -- else. On every other record it returns.
  pub ingest-Throws :
      (s : TelemetryStore J F D) (r : J) (now : ℕ)
      → (Throws r × (ingest json format s r now ≡ threw (counted s)))
        ⊎ (¬ Throws r × ((s' : TelemetryStore J F D) × (ingest json format s r now ≡ done s')))
  unfolding ingest route
  ingest-Throws s r now = elim (route-done (counted s) r now (string_of json r "type") (kind r)) [
    | inr (other, (s', e)) ↦ inr (λ t. other t.0, (s', e))
    | inl at_state ↦
        let routed = ap (route json format (counted s) r now (string_of json r "type")) at_state in
        elim (Option-cases (position_of json format r)) [
          | inl e ↦ inl (
            (at_state, position_of-none r e),
            routed ∙ state_branch ∙ state-threw (counted s) r e,
          )
          | inr (q, e) ↦ inr (
            λ t. cc (e, position_of-BadPosition r t.1),
            (_, routed ∙ state_branch ∙ state-done (counted s) r q e),
          )
        ]
  ]
    where
      state_branch :
          route json format (counted s) r now (string_of json r "type") state
          ≡ ingest_state json format (counted s) r
      state_branch = refl

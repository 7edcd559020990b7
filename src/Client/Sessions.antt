-- ===== src/Client/Sessions.antt =====
-- What the connections of `PipeClient::Loop` (viewer/src/transport/pipe_client.cpp) leave in the source.
use mathlib.Core.List.{foldl, flatten}
use skygraph.Prelude.{
  ℕ, ◌^◌, ◌<◌, ◌≡◌, refl, sym, ap, ◌∙◌, subst, true, List, [], ◌∷◌, ◌++◌, append_assoc, arith,
  Option, none, some, All, All-append,
}
use skygraph.Framing.{Text, newline}
use skygraph.Framing.Lines.{NoNewline}
use skygraph.Source.{State, Source, feed, set_state, set_error, cap_scratch}
use skygraph.Source.Chunks.{feed_bound, feed_lem, feed_nil, fed, parsed, parsed-none, parsed-some}
use skygraph.Source.Stream.{stream, stream-cons, Sendable, submit-feed}
use skygraph.Client.Backoff.{Unstopped, loop-next, attempt-running}
use skygraph.Client.{
  PipeClient, Attempt, busy, failed, opened, back_off, attempt, session, connect, loop, Read, got,
  more_data, broken, read_loop,
}

-- The bytes of the reads, up to the one that failed.
abbrev pub received : List Read → List Text
received [] = []
received (broken ∷ reads) = []
received (more_data [] ∷ reads) = []
received (more_data (b ∷ bytes) ∷ reads) = (b ∷ bytes) ∷ received reads
received (got [] ∷ reads) = received reads
received (got (b ∷ bytes) ∷ reads) = (b ∷ bytes) ∷ received reads

-- A source without its state and its message.
abbrev pub content {ℓ} : {J : Type ℓ} → Source J → Source J
content s = record s { state = State.disconnected; error_msg = [] }

module _ {J : Type 0} (parse : Text → Option J) where
  read_loop-received :
      (s : Source J) (reads : List Read)
      → (read_loop parse s reads).2 ≡ foldl (feed parse) s (received reads)
  unfolding read_loop
  read_loop-received s [] = refl
  read_loop-received s (broken ∷ reads) = refl
  read_loop-received s (more_data [] ∷ reads) = refl
  read_loop-received s (more_data (b ∷ bytes) ∷ reads) =
      read_loop-received (feed parse s (b ∷ bytes)) reads
  read_loop-received s (got [] ∷ reads) = read_loop-received s reads
  read_loop-received s (got (b ∷ bytes) ∷ reads) =
      read_loop-received (feed parse s (b ∷ bytes)) reads

  cap_scratch-content :
      (s : Source J) → cap_scratch parse (content s) ≡ content (cap_scratch parse s)
  unfolding cap_scratch
  cap_scratch-content s = ground arith

  feed-content :
      (s : Source J) (bytes : Text)
      → s.records_in < 2 ^ 64
      → feed parse (content s) bytes ≡ content (feed parse s bytes)
  feed-content s [] h = feed_nil parse (content s) ∙ ap content (sym (feed_nil parse s))
  feed-content s (b ∷ bytes) h =
      feed_lem parse (content s) b bytes h
      ∙ cap_scratch-content (fed parse s (b ∷ bytes))
      ∙ ap content (sym (feed_lem parse s b bytes h))

  foldl-content :
      (s : Source J) (chunks : List Text)
      → s.records_in < 2 ^ 64
      → foldl (feed parse) (content s) chunks ≡ content (foldl (feed parse) s chunks)
  foldl-content s [] h = refl
  foldl-content s (c ∷ chunks) h =
      ap (λ r. foldl (feed parse) r chunks) (feed-content s c h)
      ∙ foldl-content (feed parse s c) chunks (feed_bound parse s c h)

  foldl_bound :
      (s : Source J) (chunks : List Text)
      → s.records_in < 2 ^ 64
      → (foldl (feed parse) s chunks).records_in < 2 ^ 64
  foldl_bound s [] h = h
  foldl_bound s (c ∷ chunks) h = foldl_bound (feed parse s c) chunks (feed_bound parse s c h)

  foldl_same :
      (s t : Source J) (chunks : List Text)
      → s.records_in < 2 ^ 64
      → t.records_in < 2 ^ 64
      → content s ≡ content t
      → content (foldl (feed parse) s chunks) ≡ content (foldl (feed parse) t chunks)
  foldl_same s t chunks hs ht e =
      sym (foldl-content s chunks hs)
      ∙ ap (λ r. foldl (feed parse) r chunks) e
      ∙ foldl-content t chunks ht

module _ {H : Type 0} where
  abbrev pub bytes_of : Attempt H → List Text
  bytes_of busy = []
  bytes_of (failed err) = []
  bytes_of (opened h reads) = received reads

  -- All bytes of all connections, read by read.
  abbrev pub all_bytes : List (Attempt H) → List Text
  all_bytes [] = []
  all_bytes (a ∷ attempts) = bytes_of a ++ all_bytes attempts

  all_bytes-append :
      (xs ys : List (Attempt H)) → all_bytes (xs ++ ys) ≡ all_bytes xs ++ all_bytes ys
  all_bytes-append [] ys = refl
  all_bytes-append (a ∷ xs) ys =
      ap (λ bs. bytes_of a ++ bs) (all_bytes-append xs ys)
      ∙ sym (append_assoc (bytes_of a) (all_bytes xs) (all_bytes ys))

flatten_both : (xs ys : List Text) → flatten (xs ++ ys) ≡ flatten xs ++ flatten ys
unfolding flatten
flatten_both [] ys = refl
flatten_both (x ∷ xs) ys =
    ap (λ t. x ++ t) (flatten_both xs ys) ∙ sym (append_assoc x (flatten xs) (flatten ys))

foldl-append {ℓ κ} :
    {A : Type ℓ} {B : Type κ} (f : B → A → B) (b : B) (xs ys : List A)
    → foldl f b (xs ++ ys) ≡ foldl f (foldl f b xs) ys
foldl-append f b [] ys = refl
foldl-append f b (x ∷ xs) ys = foldl-append f (f b x) xs ys

NoNewline-suffix : (a b : Text) → NoNewline (a ++ b) → NoNewline b
NoNewline-suffix [] b h = h
NoNewline-suffix (x ∷ a) b h = NoNewline-suffix a b h.1

glued :
    (a : Text) (b : ℕ) (r : Text) (rs : List Text)
    → NoNewline (a ++ b ∷ r)
    → a ++ stream ((b ∷ r) ∷ rs) ≡ stream ((a ++ b ∷ r) ∷ rs)
glued [] b r rs h = refl
glued (x ∷ a) b r rs h =
    ap (◌++◌ (x ∷ a)) (stream-cons b r rs (NoNewline-suffix (x ∷ a) (b ∷ r) h))
    ∙ sym (append_assoc (x ∷ a) (b ∷ r) (newline ∷ stream rs))
    ∙ sym (stream-cons x (a ++ b ∷ r) rs h)

module _ {H J : Type 0} (parse : Text → Option J) (to_string : ℕ → Text) where
  attempt-content :
      (c : PipeClient H J) (a : Attempt H)
      → c.source.records_in < 2 ^ 64
      → content (attempt parse to_string c a).source
        ≡ content (foldl (feed parse) (c.source) (bytes_of a))
  unfolding attempt session connect back_off set_state set_error
  attempt-content c busy b = refl
  attempt-content c (failed err) b = refl
  attempt-content c (opened h reads) b =
      ap (content) (read_loop-received parse (connect parse c h).source reads)
      ∙ foldl_same parse (connect parse c h).source (c.source) (received reads) b b refl

  -- Whatever attempts to connect fail or succeed, and wherever the connections break: the queue, the
  -- incomplete line and the counters become those of a source that is fed the bytes of all
  -- connections in a row.
  pub loop-content :
      (c : PipeClient H J) (attempts : List (Attempt H))
      → c.running ≡ true
      → c.source.records_in < 2 ^ 64
      → All Unstopped attempts
      → content (loop parse to_string c attempts).source
        ≡ content (foldl (feed parse) (c.source) (all_bytes attempts))
  unfolding loop
  loop-content c [] r b u = refl
  loop-content c (a ∷ attempts) r b u =
      let e = attempt-content c a b in
      let bound = foldl_bound parse (c.source) (bytes_of a) b in
      let b' : (attempt parse to_string c a).source.records_in < 2 ^ 64 =
        subst (λ k. k < 2 ^ 64) (sym (ap (λ (s : Source J). s.records_in) e)) bound in
      ap (λ (d : PipeClient H J). content d.source) (sym (loop-next parse to_string c a attempts r))
      ∙ loop-content (attempt parse to_string c a) attempts
          (attempt-running parse to_string c a u.0 r) b' u.1
      ∙ foldl_same parse (attempt parse to_string c a).source
          (foldl (feed parse) (c.source) (bytes_of a)) (all_bytes attempts) b' bound e
      ∙ ap content (sym (foldl-append (feed parse) (c.source) (bytes_of a) (all_bytes attempts)))

  -- A client that holds no incomplete line is sent records (with no newline inside, none above
  -- 1 MiB), cut into reads and connections anywhere: each record that parses is queued once, in
  -- order, whatever attempts fail in between.
  pub submit-loop :
      (c : PipeClient H J) (attempts : List (Attempt H)) (rs : List Text)
      → c.running ≡ true
      → c.source.records_in < 2 ^ 64
      → c.source.bytes_in < 2 ^ 64
      → c.source.scratch ≡ []
      → All Unstopped attempts
      → All Sendable rs
      → flatten (all_bytes attempts) ≡ stream rs
      → ((loop parse to_string c attempts).source.queue ≡ c.source.queue ++ parsed parse rs)
        × ((loop parse to_string c attempts).source.scratch ≡ [])
  submit-loop c attempts rs r b b' empty u h e =
      let all =
        loop-content c attempts r b u
        ∙ ap content (submit-feed parse (c.source) rs (all_bytes attempts) b b' empty h e) in
      (ap (λ (s : Source J). s.queue) all, ap (λ (s : Source J). s.scratch) all ∙ empty)

  -- A connection breaks inside a record, after the bytes `x ∷ a`, and the next ones send whole
  -- records, the first of which parses: that record is lost. The viewer glues the two, and if what it
  -- then parses is no JSON, the queue gets only the records that follow, while a viewer without the
  -- broken connection also queues the first one.
  pub reconnect_glues :
      (c : PipeClient H J) (broken_off attempts : List (Attempt H)) (x : ℕ) (a : Text) (b : ℕ)
      (r : Text) (rs : List Text) (j : J)
      → c.running ≡ true
      → c.source.records_in < 2 ^ 64
      → c.source.bytes_in < 2 ^ 64
      → c.source.scratch ≡ []
      → All Unstopped broken_off
      → All Unstopped attempts
      → flatten (all_bytes broken_off) ≡ x ∷ a
      → flatten (all_bytes attempts) ≡ stream ((b ∷ r) ∷ rs)
      → All Sendable ((b ∷ r) ∷ rs)
      → Sendable ((x ∷ a) ++ b ∷ r)
      → parse (b ∷ r) ≡ some j
      → parse ((x ∷ a) ++ b ∷ r) ≡ none
      → ((loop parse to_string c (broken_off ++ attempts)).source.queue
          ≡ c.source.queue ++ parsed parse rs)
        × ((loop parse to_string c attempts).source.queue ≡ c.source.queue ++ j ∷ parsed parse rs)
  reconnect_glues c broken_off attempts x a b r rs j on hr hb empty u v e f sendable long good bad =
      let sent : flatten (all_bytes (broken_off ++ attempts)) ≡ stream (((x ∷ a) ++ b ∷ r) ∷ rs) =
        ap flatten (all_bytes-append broken_off attempts)
        ∙ flatten_both (all_bytes broken_off) (all_bytes attempts)
        ∙ ap (λ t. t ++ flatten (all_bytes attempts)) e
        ∙ ap (λ t. (x ∷ a) ++ t) f
        ∙ glued (x ∷ a) b r rs (long.0) in
      let both =
        submit-loop c (broken_off ++ attempts) (((x ∷ a) ++ b ∷ r) ∷ rs) on hr hb empty
          (All-append Unstopped broken_off attempts u v) (long, sendable.1) sent in
      let alone = submit-loop c attempts ((b ∷ r) ∷ rs) on hr hb empty v sendable f in
      (
        both.0 ∙ ap (λ js. c.source.queue ++ js) (parsed-none parse x (a ++ b ∷ r) rs bad),
        alone.0 ∙ ap (λ js. c.source.queue ++ js) (parsed-some parse b r rs j good),
      )

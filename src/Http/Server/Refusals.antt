-- ===== src/Http/Server/Refusals.antt =====
-- HttpServer.cc and HttpContext.cc: a request line that the parser refuses stays in the buffer.
use myoj.Common.{
  ℕ, suc, ◌==◌, ◌≡◌, ◌≢◌, refl, sym, ap, ◌∙◌, subst, inl, inr, Bool, true, false, Bool-cases,
  Option-cases, if-cases, none, some, List, [], ◌∷◌, ◌++◌, All, length, take, drop, take-length,
  length-append, append_assoc, append-nil, arith,
}
use myoj.Common.Bytes.{Bytes, find_index, find_index-append, lookup}
use myoj.Net.Buffer.{Buffer, contents, readable_bytes}
use myoj.Net.Buffer.Contents.{IsValid}
use myoj.Net.Buffer.Space.{read_fd-IsValid, contents-read_fd}
use myoj.Net.Connection.{Connection, connected, write_complete_task, queue_task, handle_read}
use myoj.Http.Request.{Request, Method, is_invalid, set_method, set_query, string_to_http_method}
use myoj.Http.Context.{
  Context, expect_request_line, Outcome, done, aborted, running, parse_request,
  process_request_line, process_target, set_target, set_version, version_of, get_all,
}
use myoj.Http.Context.Stream.{
  ends, stream_parse, stream_loop, stream_round, line_round, Same, parse_request-Same,
}
use myoj.Http.Response.{Response}
use myoj.Http.Server.{Handled, handled, bad_request_text, answer, answer_all, on_message}
use myoj.Http.Server.Answers.{takes_all, arrives, send_bytes-idle, goes_on, wire-queue_task}

set_target-method : (target : Bytes) (r : Request) → (set_target target r).method ≡ r.method
unfolding set_target set_query
set_target-method target r =
    if-cases (λ (q : Request). q.method ≡ r.method) (find_index b'?' target == length target) _ _
      (λ e. refl) (λ e. refl)

set_version-method : (text : Bytes) (r : Request) → (set_version text r).1.method ≡ r.method
unfolding set_version
set_version-method text r = elim (Option-cases (version_of text)) [
  | inl e ↦ rw (set_version, e) refl
  | inr (v, e) ↦ rw (set_version, e) refl
]

process_target-method : (rest : Bytes) (r : Request) → (process_target rest r).1.method ≡ r.method
unfolding process_target
process_target-method rest r =
    if-cases (λ (q : Bool × Request). q.1.method ≡ r.method) (find_index b' ' rest == length rest) _
      _ (λ e. refl) (λ e. set_version-method _ _ ∙ set_target-method _ r)

known_method :
    (m : Bytes) (found : Method)
    → lookup m string_to_http_method ≡ some found
    → is_invalid found ≡ false
unfolding lookup
known_method m found e = ground (arith, e)

module _ (m : Bytes) (r : Request) where
  set_method_unknown : lookup m string_to_http_method ≡ none → (set_method m r).0 ≡ false
  unfolding set_method
  set_method_unknown e = elim (Bool-cases (is_invalid r.method)) [
    | inl i ↦ rw (set_method, i, e) refl
    | inr i ↦ rw (set_method, i) refl
  ]

  set_method_taken : is_invalid r.method ≡ false → set_method m r ≡ (false, r)
  unfolding set_method
  set_method_taken i = rw (set_method, i) refl

  set_method_known :
      (found : Method)
      → is_invalid r.method ≡ true
      → lookup m string_to_http_method ≡ some found
      → set_method m r ≡ (true, record r { method = found })
  unfolding set_method
  set_method_known found i e = rw (set_method, i, e) refl

module _ (line : Bytes) where
  word : Bytes
  word = take (find_index b' ' line) line

  -- What `process_request_line` does behind the search for the first blank.
  no_space :
      (r : Request)
      → (find_index b' ' line == length line) ≡ true
      → process_request_line line r ≡ (false, r)
  unfolding process_request_line
  no_space r e = rw (process_request_line, e) refl

  refused_word :
      (r : Request) → (set_method word r).0 ≡ false → (process_request_line line r).0 ≡ false
  unfolding process_request_line word
  refused_word r h =
      if-cases (λ (q : Bool × Request). q.0 ≡ false) (find_index b' ' line == length line) _ _
        (λ e. refl) (λ e. simp h refl)

  refused_known :
      (r : Request) (found : Method)
      → (find_index b' ' line == length line) ≡ false
      → set_method word r ≡ (true, record r { method = found })
      → process_request_line line r
        ≡ process_target (drop (suc (find_index b' ' line)) line) (record r { method = found })
  unfolding process_request_line word
  refused_known r found e h = simp (e, h) refl

  refused_taken :
      (r : Request)
      → (find_index b' ' line == length line) ≡ false
      → set_method word r ≡ (false, r)
      → process_request_line line r ≡ (false, r)
  unfolding process_request_line word
  refused_taken r e h = simp (e, h) refl

  taken : (r : Request) → is_invalid r.method ≡ false → (process_request_line line r).0 ≡ false
  taken r i = refused_word r (ap (λ (q : Bool × Request). q.0) (set_method_taken word r i))

  -- A second look at a refused line refuses it too.
  refused_again :
      (r : Request)
      → (process_request_line line r).0 ≡ false
      → (process_request_line line (process_request_line line r).1).0 ≡ false
  refused_again r h = elim (Bool-cases (find_index b' ' line == length line)) [
    | inl e ↦ rw (no_space r e) (ap (λ (q : Bool × Request). q.0) (no_space r e))
    | inr e ↦ elim (Bool-cases (is_invalid r.method)) [
      | inl i ↦ elim (Option-cases (lookup word string_to_http_method)) [
        | inl none_found ↦ refused_word _ (set_method_unknown word _ none_found)
        | inr (found, some_found) ↦
            let known = refused_known r found e (set_method_known word r found i some_found) in
            rw known (
              taken _ (
                ap is_invalid (
                  process_target-method (drop (suc (find_index b' ' line)) line)
                    (record r { method = found }))
                ∙ known_method word found some_found))
      ]
      | inr i ↦ rw (refused_taken r e (set_method_taken word r i)) (taken r i)
    ]
  ]

-- A parser whose buffer starts with a line that it refuses, on a connection that is up and idle
-- towards the client.
pub record IsStuck (line : Bytes) (c : Context) (conn : Connection) : Type 0 where
  pub waits : c.state ≡ expect_request_line
  pub refused : (process_request_line line c.request).0 ≡ false
  pub valid : IsValid conn.input_buffer
  pub held : (rest : Bytes) × (contents conn.input_buffer ≡ line ++ 13 ∷ rest)
  pub up : conn.state ≡ connected
  pub called : conn.has_message_callback ≡ true
  pub not_writing : conn.is_writing ≡ false
  pub nothing_out : readable_bytes conn.output_buffer ≡ 0

longer : (line rest : Bytes) → (length line == length (line ++ 13 ∷ rest)) ≡ false
longer line rest = ground (arith, length-append {0} line (13 ∷ rest))

stream_refuses :
    (line rest : Bytes) (c : Context) (time : ℕ)
    → All (λ x. x ≢ 13) line
    → c.state ≡ expect_request_line
    → (process_request_line line c.request).0 ≡ false
    → stream_parse c (line ++ 13 ∷ rest) time
      ≡ ends false
          (record {
            state = expect_request_line;
            request = (process_request_line line c.request).1;
          })
          (line ++ 13 ∷ rest)
unfolding stream_parse stream_loop stream_round line_round
stream_refuses line rest c time plain waits refused =
    simp
      (
        waits,
        find_index-append 13 line rest plain,
        longer line rest,
        take-length line (13 ∷ rest),
        refused,
      )
      refl

Same-ends_false :
    (o : Outcome) (c : Context) (s : Bytes)
    → Same o (ends false c s)
    → (b : Buffer) × (o ≡ done false c b) × (contents b ≡ s) × IsValid b
Same-ends_false (done ok b' b) c s (e, v) = (b, cc, cc, v)
Same-ends_false aborted c s e = absurd (cc)
Same-ends_false running c s e = absurd (cc)

IsStuck-queue_task :
    (line : Bytes) (b : Bool) (c : Context) (conn : Connection)
    → IsStuck line c conn
    → IsStuck line c (queue_task b write_complete_task conn)
unfolding queue_task
IsStuck-queue_task line true c conn h = record {
  waits = h.waits;
  refused = h.refused;
  valid = h.valid;
  held = h.held;
  up = h.up;
  called = h.called;
  not_writing = h.not_writing;
  nothing_out = h.nothing_out;
}
IsStuck-queue_task line false c conn h = h

-- More bytes behind the line.
handle_read-IsStuck :
    (line : Bytes) (x : ℕ) (s : Bytes) (c : Context) (conn : Connection)
    → IsStuck line c conn
    → IsStuck line c (handle_read (some (x ∷ s)) conn)
      × ((handle_read (some (x ∷ s)) conn).wire ≡ conn.wire)
handle_read-IsStuck line x s c conn h = rw (arrives (x ∷ s) conn (λ e. cc) h.called) (
  record {
    waits = h.waits;
    refused = h.refused;
    valid = read_fd-IsValid (x ∷ s) conn.input_buffer h.valid;
    held = (
      h.held.0 ++ x ∷ s,
      contents-read_fd (x ∷ s) conn.input_buffer h.valid
          ∙ ap (λ t. t ++ x ∷ s) h.held.1
          ∙ append_assoc line (13 ∷ h.held.0) (x ∷ s),
    );
    up = h.up;
    called = h.called;
    not_writing = h.not_writing;
    nothing_out = h.nothing_out;
  },
  refl,
)

abbrev pub refusals_text : List (ℕ × Bytes × ℕ) → Bytes
refusals_text [] = []
refusals_text (s ∷ segments) = bad_request_text ++ refusals_text segments

module _ (callback : Request → Response → Response) where
  -- Segments that arrive one by one: the first byte, the others and the time.
  unfoldable pub feed : List (ℕ × Bytes × ℕ) → Context → Connection → Handled
  feed [] c conn = handled c conn
  feed ((x, s, time) ∷ segments) c conn =
      goes_on (on_message callback takes_all c (handle_read (some (x ∷ s)) conn) time)
        (feed segments)

  module _ (line : Bytes) (plain : All (λ x. x ≢ 13) line) where
    refuses :
        (c : Context) (conn : Connection) (time : ℕ)
        → IsStuck line c conn
        → (c' : Context) × (conn' : Connection) × (on_message callback takes_all c conn time
            ≡ handled c' conn')
          × IsStuck line c' conn'
          × (conn'.wire ≡ conn.wire ++ bad_request_text)
    unfolding on_message answer answer_all get_all
    refuses c conn time h =
        let (rest, held) = h.held in
        let c' : Context = record {
          state = expect_request_line;
          request = (process_request_line line c.request).1;
        } in
        let (b, e, same, valid) =
          Same-ends_false (parse_request c conn.input_buffer time) c' (line ++ 13 ∷ rest) (
            subst (Same (parse_request c conn.input_buffer time))
              (ap (λ s. stream_parse c s time) held
                ∙ stream_refuses line rest c time plain h.waits h.refused)
              (parse_request-Same c conn.input_buffer time h.valid)) in
        let read : Connection = record conn {
          input_buffer = b;
          wire = conn.wire ++ bad_request_text;
        } in
        let stuck : IsStuck line c' read = record {
          waits = refl;
          refused = refused_again line c.request h.refused;
          valid = valid;
          held = (rest, same);
          up = h.up;
          called = h.called;
          not_writing = h.not_writing;
          nothing_out = h.nothing_out;
        } in
        (
          c',
          queue_task conn.has_write_complete_callback write_complete_task read,
          ap (λ o. answer callback takes_all o conn) e
              ∙ ap (handled c') (
                  send_bytes-idle bad_request_text (record conn { input_buffer = b }) h.up
                    h.not_writing h.nothing_out),
          IsStuck-queue_task line conn.has_write_complete_callback c' read stuck,
          wire-queue_task conn.has_write_complete_callback read,
        )

    -- On a connection that is up and has no output waiting, with a kernel that takes all that is sent:
    -- while the buffer starts with a complete line without '\r' that the parser refuses, every segment
    -- that arrives, whatever it holds, is answered by one more 400 response; the connection stays so and
    -- the line stays at the front of the buffer.
    pub feed-IsStuck :
        (segments : List (ℕ × Bytes × ℕ)) (c : Context) (conn : Connection)
        → IsStuck line c conn
        → (c' : Context) × (conn' : Connection) × (feed segments c conn ≡ handled c' conn')
          × IsStuck line c' conn'
          × (conn'.wire ≡ conn.wire ++ refusals_text segments)
    unfolding feed
    feed-IsStuck [] c conn h = (c, conn, refl, h, sym (append-nil conn.wire))
    feed-IsStuck ((x, s, time) ∷ segments) c conn h =
        let (more, kept) = handle_read-IsStuck line x s c conn h in
        let (c₁, first, e, stuck, wire) = refuses c (handle_read (some (x ∷ s)) conn) time more in
        let (c₂, last, f, stuck', wire') = feed-IsStuck segments c₁ first stuck in
        (
          c₂,
          last,
          ap (λ o. goes_on o (feed segments)) e ∙ f,
          stuck',
          wire'
              ∙ ap (λ t. t ++ refusals_text segments) (wire ∙ ap (λ t. t ++ bad_request_text) kept)
              ∙ append_assoc conn.wire bad_request_text (refusals_text segments),
        )

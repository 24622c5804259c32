-- ===== src/Transport/Server/Waiting.antt =====
-- Which streams the server of go/adapters/grpctransport/replay.go keeps between two frames, and that it
-- gets through every frame.
use poly_xrr.Common.{
  ℕ, ◌==◌, Bytes, Bool, true, false, Bool-cases, Option, none, some, List, [], ◌∷◌, ◌++◌, if_both,
  ◌≡◌, refl, subst, inl, inr,
}
use poly_xrr.Errors.{Error, Result, ok, err}
use poly_xrr.Stream.Model.{StreamType}
use poly_xrr.Replay.{StreamReplay}
use poly_xrr.Session.Streams.{StreamOpen}
use poly_xrr.Transport.Headers.{split_path}
use poly_xrr.Transport.Reassembly.{feed}
use poly_xrr.Transport.Shape.{first_or_nil, stream_open_for}
use poly_xrr.Transport.Answers.{
  ReplayStream, Delivered, send_all, close_mismatch, infer_replay_type,
}
use poly_xrr.Transport.Answers.Reads.{recv_all-total}
use poly_xrr.Transport.Server.{
  ClientFrame, settings_frame, ping_frame, headers_frame, data_frame, reset_frame, go_away_frame,
  other_frame, ReplayConn, set_stream, Host, delivered, deliver, or_mismatch, serve_stream,
  opened_with, count_probe, open_as, cassette_exists, advance_stream, advance, on_headers,
  on_messages, on_data, handle_frame, is_go_away, and_then, serve,
}

-- A stream that is still waiting for its cassette.
abbrev pub Waits : Option ReplayStream → Type 0
Waits none = Unit
Waits (some s) = (s.opened ≡ false) × (s.done ≡ false)

abbrev pub IsWaiting : ReplayConn → Type 0
IsWaiting c = (id : ℕ) → Waits (c.streams id)

-- Every stream but one waits.
abbrev Others : ReplayConn → ℕ → Type 0
Others c id = (j : ℕ) → (j == id) ≡ false → Waits (c.streams j)

-- A step that returns, with every stream waiting behind it.
abbrev pub Returns : Option ReplayConn → Type 0
Returns r = (c : ReplayConn) × (r ≡ some c) × IsWaiting c

Waits-set :
    (c : ReplayConn) (id : ℕ) (s : Option ReplayStream)
    → Waits s
    → Others c id
    → IsWaiting (set_stream c id s)
Waits-set c id s h others j = elim (Bool-cases (j == id)) [
  | inl mine ↦ rw mine h
  | inr other ↦ rw other (others j other)
]

Others-set :
    (c : ReplayConn) (id : ℕ) (s : Option ReplayStream)
    → Others c id
    → Others (set_stream c id s) id
Others-set c id s others j other = rw other (others j other)

and_then-Returns :
    (r : Option ReplayConn) (next : ReplayConn → Option ReplayConn)
    → Returns r
    → ((c : ReplayConn) → IsWaiting c → Returns (next c))
    → Returns (and_then r next)
unfolding and_then
and_then-Returns none next (c, done, h) k = absurd (cc)
and_then-Returns (some c) next (c', done, h) k =
    k c (let same : c' ≡ c = cc in subst IsWaiting same h)

module _ {Store : Type 0} (host : Host Store) (dir : Bytes) where
  delivered-Returns :
      (c : ReplayConn) (id : ℕ) (d : Option Delivered) (r : Delivered)
      → d ≡ some r
      → Others c id
      → Returns (delivered host dir c id d)
  unfolding delivered
  delivered-Returns c id none r h others = absurd (cc)
  delivered-Returns c id (some (ms, rp, e)) r h others = (_, refl, Waits-set c id none tt others)

  deliver-Returns :
      (c : ReplayConn) (id : ℕ) (rp : StreamReplay)
      → Others c id
      → Returns (deliver host dir c id rp)
  unfolding deliver
  deliver-Returns c id rp others =
      let (r, done) = recv_all-total rp in delivered-Returns c id _ r done others

  or_mismatch-Returns :
      (c : ReplayConn) (id : ℕ) (r : StreamReplay × Option Error)
      (next : StreamReplay → Option ReplayConn)
      → Others c id
      → ((rp : StreamReplay) → Returns (next rp))
      → Returns (or_mismatch host dir c id r next)
  unfolding or_mismatch
  or_mismatch-Returns c id (rp, none) next others h = h rp
  or_mismatch-Returns c id (rp, some e) next others h = (_, refl, Waits-set c id none tt others)

  serve_stream-Returns :
      (c : ReplayConn) (id : ℕ) (half_closed : Bool) (msgs : List Bytes) (rp : StreamReplay)
      → Others c id
      → Returns (serve_stream host dir c id half_closed msgs rp)
  unfolding serve_stream
  serve_stream-Returns c id half_closed msgs rp others =
      or_mismatch-Returns c id (send_all true rp msgs) _ others (λ rp'.
        or_mismatch-Returns c id (close_mismatch half_closed rp') _ others
          (λ rp''. deliver-Returns c id rp'' others))

  opened_with-Returns :
      (c : ReplayConn) (id : ℕ) (s : ReplayStream) (half_closed : Bool) (msgs : List Bytes)
      (r : Result StreamReplay)
      → Others c id
      → Returns (opened_with host dir c id s half_closed msgs r)
  unfolding opened_with
  opened_with-Returns c id s half_closed msgs (err e) others =
      (_, refl, Waits-set c id none tt others)
  opened_with-Returns c id s half_closed msgs (ok rp) others =
      serve_stream-Returns _ id half_closed msgs rp (Others-set c id _ others)

  open_as-Returns :
      (c : ReplayConn) (id : ℕ) (s : ReplayStream) (half_closed : Bool) (typ : Option StreamType)
      → IsWaiting c
      → Returns (open_as host dir c id s half_closed typ)
  unfolding open_as count_probe
  open_as-Returns c id s half_closed none h = (c, refl, h)
  open_as-Returns c id s half_closed (some typ) h =
      let s' : ReplayStream = record s { buffered = []; opened = true } in
      let o : StreamOpen =
        stream_open_for host.digest c.session typ s.service s.method (first_or_nil s.buffered) in
      let marked = set_stream c id (some s') in
      let others : Others (count_probe host dir marked o) id =
        if_both (λ x. Others x id) o.counter (Others-set c id _ (λ j other. h j))
          (Others-set c id _ (λ j other. h j)) in
      opened_with-Returns _ id s' half_closed s.buffered _ others

  advance_stream-Returns :
      (c : ReplayConn) (id : ℕ) (half_closed : Bool) (s : Option ReplayStream)
      → IsWaiting c
      → Waits s
      → Returns (advance_stream host dir c id half_closed s)
  unfolding advance_stream
  advance_stream-Returns c id half_closed none h waits = (c, refl, h)
  advance_stream-Returns c id half_closed (some s) h (unopened, undone) =
      simp (undone, unopened)
        (open_as-Returns c id s half_closed
          (infer_replay_type s half_closed (cassette_exists host dir c s.service s.method)) h)

  advance-Returns :
      (c : ReplayConn) (id : ℕ) (half_closed : Bool)
      → IsWaiting c
      → Returns (advance host dir c id half_closed)
  unfolding advance
  advance-Returns c id half_closed h =
      advance_stream-Returns c id half_closed (c.streams id) h (h id)

  on_headers-Returns :
      (c : ReplayConn) (id : ℕ) (ended : Bool) (path : Option (Bytes × Bytes))
      → IsWaiting c
      → Returns (on_headers host dir c id ended path)
  unfolding on_headers
  on_headers-Returns c id ended none h = (_, refl, Waits-set c id none tt (λ j other. h j))
  on_headers-Returns c id ended (some (service, method)) h =
      let s : ReplayStream = record {
        service = service;
        method = method;
        replay = none;
        buffered = [];
        opened = false;
        done = false;
      } in
      let h' = Waits-set c id (some s) (refl, refl) (λ j other. h j) in
      if_both Returns ended (advance-Returns (set_stream c id (some s)) id true h')
        (set_stream c id (some s), refl, h')

  on_messages-Returns :
      (c : ReplayConn) (id : ℕ) (s : ReplayStream) (ended : Bool) (r : Result (List Bytes))
      → IsWaiting c
      → Waits (some s)
      → Returns (on_messages host dir c id s ended r)
  unfolding on_messages
  on_messages-Returns c id s ended (err e) h waits =
      (_, refl, Waits-set c id none tt (λ j other. h j))
  on_messages-Returns c id s ended (ok ms) h waits =
      let s' : ReplayStream = record s { buffered = s.buffered ++ ms } in
      advance-Returns (set_stream c id (some s')) id ended
        (Waits-set c id (some s') waits (λ j other. h j))

  on_data-Returns :
      (c : ReplayConn) (id : ℕ) (bytes : Bytes) (ended : Bool) (s : Option ReplayStream)
      → IsWaiting c
      → Waits s
      → Returns (on_data host dir c id bytes ended s)
  unfolding on_data
  on_data-Returns c id bytes ended none h waits = (c, refl, h)
  on_data-Returns c id bytes ended (some s) h waits =
      on_messages-Returns c id s ended (feed [] bytes).1 h waits

  handle_frame-Returns :
      (c : ReplayConn) (f : ClientFrame) → IsWaiting c → Returns (handle_frame host dir c f)
  unfolding handle_frame
  handle_frame-Returns c (settings_frame false) h = (_, refl, h)
  handle_frame-Returns c (settings_frame true) h = (c, refl, h)
  handle_frame-Returns c (ping_frame false bytes) h = (_, refl, h)
  handle_frame-Returns c (ping_frame true bytes) h = (c, refl, h)
  handle_frame-Returns c (headers_frame id fields ended) h =
      on_headers-Returns c id ended (split_path (host.path_value fields)) h
  handle_frame-Returns c (data_frame id bytes ended) h =
      on_data-Returns c id bytes ended (c.streams id) h (h id)
  handle_frame-Returns c (reset_frame id) h = (_, refl, Waits-set c id none tt (λ j other. h j))
  handle_frame-Returns c go_away_frame h = (c, refl, h)
  handle_frame-Returns c other_frame h = (c, refl, h)

  -- The server gets through every sequence of frames, with the fuel that its loops have and without
  -- using a handle that it does not have. Where no stream was opened before, none is left open between
  -- two frames: an opened stream is answered to its end within the frame that opened it.
  pub serve-Returns :
      (fs : List ClientFrame) (c : ReplayConn) → IsWaiting c → Returns (serve host dir c fs)
  unfolding serve
  serve-Returns [] c h = (c, refl, h)
  serve-Returns (f ∷ fs) c h =
      if_both Returns (is_go_away f) (c, refl, h)
        (and_then-Returns (handle_frame host dir c f) _ (handle_frame-Returns c f h)
          (λ c' h'. serve-Returns fs c' h'))

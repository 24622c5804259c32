-- ===== src/Grpc/Record/Teed.antt =====
-- What a recorded bidi call, go/adapters/grpc/stream.go, hands to its recording.
use poly_xrr.Common.{
  ℕ, ℤ, Bytes, true, false, Option, none, some, List, [], ◌∷◌, map, ◌≡◌, refl, ap, ◌∙◌,
}
use poly_xrr.Errors.{Error, eof, Result, ok, err, ◌>>=◌}
use poly_xrr.Stream.Model.{StreamType}
use poly_xrr.Stream.Model.StreamType.{bidi}
use poly_xrr.Stream.Cassette.{StreamCassette}
use poly_xrr.Canonical.{Digest}
use poly_xrr.Recording
use poly_xrr.Recording.{StreamRecording, record_call, record_calls}
use poly_xrr.Session.{FileCassette, FileSession}
use poly_xrr.Session.Streams.{open_stream_record}
use poly_xrr.Grpc.{Grpc, split_full_method, is_server, stream_open}
use poly_xrr.Grpc.Exchange.{
  Exchange, says, hears, closes, IsCodec, bidi_desc, call_of_exchange, call_of-bidi,
}
use poly_xrr.Grpc.Record.{
  RecordStream, Recorder, ok_code, status_payload, terminal_code, opened, new_record_stream,
  finish_call, finish_rec, saved, send_msg, send_marshaled, recv_msg, recv_marshaled, close_send,
  started,
}
use poly_xrr.Grpc.Record.Once
use poly_xrr.Grpc.Record.Once.{LiveCall, sends, receives, live_call, live_calls}

-- What the client does, and what the live stream answers.
abbrev pub as_live : {Msg : Type 0} → Exchange Msg → LiveCall Msg
as_live (says since m) = sends since m none
as_live (hears since m) = receives since (ok m)
as_live (closes since) = Once.closes since none

-- The code and the text of the error that ends a call.
abbrev pub ending : {Msg : Type 0} → Grpc Msg → Error → ℕ × Option Bytes
ending g eof = (ok_code, none)
ending g e = (g.status_code e, some (g.error_text e))

-- The wrapper of a bidi call that is open.
abbrev pub bidi_stream : Bytes → Bytes → FileCassette → StreamRecording → RecordStream
bidi_stream service method c r = record {
  typ = bidi;
  service = service;
  method = method;
  server_streams = true;
  rec = some (c, r);
  finished = false;
}

module _ {Store Msg : Type 0} (media : FileCassette → StreamCassette Store) (d : Digest)
    (g : Grpc Msg) (wire : Msg → Bytes) (codec : IsCodec g wire) (s : FileSession) (store : Store)
    (service method : Bytes) (c : FileCassette) where
  abbrev wrapper : StreamRecording → Recorder Store
  wrapper r = record { session = s; store = store; stream = bidi_stream service method c r }

  live_call-record_call :
      (r : StreamRecording) (x : Exchange Msg)
      → live_call media d g (wrapper r) (as_live x)
        ≡ wrapper (record_call r (call_of_exchange wire x))
  unfolding record_call send_msg send_marshaled recv_msg recv_marshaled close_send
  live_call-record_call r (says since m) =
      ap (λ x. (send_marshaled media d g (wrapper r) since none x).0) (codec.marshals m)
  live_call-record_call r (hears since m) =
      ap (λ x. (recv_marshaled media d g (wrapper r) since m c r x).0) (codec.marshals m)
  live_call-record_call r (closes since) = refl

  pub live_calls-record_calls :
      (xs : List (Exchange Msg)) (r : StreamRecording)
      → live_calls media d g (wrapper r) (map as_live xs)
        ≡ wrapper (record_calls r (map (call_of_exchange wire) xs))
  unfolding record_calls
  live_calls-record_calls [] r = refl
  live_calls-record_calls (x ∷ xs) r =
      ap (λ w. live_calls media d g w (map as_live xs)) (live_call-record_call r x)
      ∙ live_calls-record_calls xs (record_call r (call_of_exchange wire x))

  -- The last receive, with the pair saved.
  pub recv_msg-end :
      (r r' : StreamRecording) (store' : Store) (since : ℤ) (e : Error)
      → Recording.finish
          (media c)
          store
          r
          since
          (status_payload (terminal_code (ending g e).0 (ending g e).1))
          (ending g e).1
        ≡ (r', store', ok tt)
      → recv_msg media d g (wrapper r) since (err e) ≡ (
        record {
          session = s;
          store = store';
          stream = record (bidi_stream service method c r') { finished = true };
        },
        err e,
      )
  unfolding recv_msg finish_call finish_rec saved
  recv_msg-end r r' store' since eof h = simp h
  recv_msg-end r r' store' since e h = simp h

  pub new_record_stream_lem :
      (s₀ : FileSession) (full : Bytes) (r : StreamRecording)
      → split_full_method full ≡ ok (service, method)
      → open_stream_record d s₀ (stream_open d s₀ bidi service method []) ≡ (s, ok (c, r))
      → new_record_stream media d g s₀ bidi_desc full none
        ≡ (s, ok (bidi_stream service method c r))
  unfolding new_record_stream opened started is_server
  new_record_stream_lem s₀ full r names found =
      ap {B = FileSession × Result RecordStream}
        (λ (x : Result (StreamType × Bytes × Bytes)). elim x [
          | err e ↦ (s₀, err e)
          | ok (typ, service, method) ↦
              started media d g bidi_desc none (typ, service, method)
                (opened media d g s₀ typ service method)
        ])
        (call_of-bidi full service method names)
      ∙ ap {B = FileSession × Result RecordStream}
          (λ (x : FileSession × Result (FileCassette × StreamRecording)).
            started media d g bidi_desc none (bidi, service, method)
              (x.0, (do rec ← x.1; ok (some rec))))
          found

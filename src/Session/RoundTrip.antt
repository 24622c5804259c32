-- ===== src/Session/RoundTrip.antt =====
-- From a recording session to a replaying one, go/stream_session.go.
use poly_xrr.Common.{ℕ, Bytes, Option, [], ◌∷◌, ◌≡◌, ap, arith}
use poly_xrr.Errors.{Error, eof, recorded, Result, ok, err, >>=-eq-ok}
use poly_xrr.Stream.Scrub.{StreamScrubInfo}
use poly_xrr.Canonical.{Digest}
use poly_xrr.Recording.{StreamRecording, err_text}
use poly_xrr.Recording.Holds.{Holds}
use poly_xrr.Session.{Mode, FileCassette, FileSession}
use poly_xrr.Session.Streams.{StreamOpen, record_checked, opened_recording, stream_open_fingerprint}

-- The session with another mode: the same cassette, hook and counters.
abbrev pub in_mode : Mode → FileSession → FileSession
in_mode mode s = record s { mode = mode }

pub record Opened (d : Digest) (s s' : FileSession) (o : StreamOpen) (r : StreamRecording)
    : Type 0 where
  pub fp : Bytes
  pub n : Option ℕ
  pub addressed : stream_open_fingerprint d s o ≡ (s', ok (fp, n))
  pub handle : r ≡ opened_recording s o fp n

pub record_checked_inv :
    (d : Digest) (s s' : FileSession) (o : StreamOpen) (k : Result FileCassette) (c : FileCassette)
    (r : StreamRecording)
    → record_checked d s o k ≡ (s', ok (c, r))
    → (k ≡ ok c) × Opened d s s' o r
unfolding record_checked
record_checked_inv d s s' o (err e) c r h = absurd (ground arith)
record_checked_inv d s s' o (ok k) c r h =
    let ((fp, n), addressed, rest) =
      >>=-eq-ok (stream_open_fingerprint d s o).1 _ (ap (λ x. x.1) h) in
    (
      cc rest,
      record { fp = fp; n = n; addressed = cc (addressed, ap (λ x. x.0) h); handle = cc rest },
    )

-- What a read at the end of a replay returns.
pub terminal_of : Option Bytes → Error
unfolding err_text
terminal_of e = elim (err_text e) [ [] ↦ eof | c ∷ cs ↦ recorded (c ∷ cs) ]

abbrev pub info_of : StreamOpen → StreamScrubInfo
info_of o = record { adapter_id = o.adapter_id; typ = o.typ }

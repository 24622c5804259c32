-- ===== src/Recording/Holds.antt =====
-- The messages that a recording holds after a sequence of calls, go/stream_session.go: those of
-- each direction in their order, each scrubbed once.
use poly_xrr.Common.{
  ℤ, Bytes, false, Option, List, [], ◌∷◌, ◌++◌, map, map-append, append-nil, append_assoc, ◌≡◌,
  refl, ◌∙◌, if_both,
}
use poly_xrr.Stream.Model.{StreamFrame}
use poly_xrr.Stream.Scrub.{StreamScrubFunc, StreamScrubInfo, stream_send, stream_recv, scrub_frame}
use poly_xrr.Recording.{
  StreamRecording, scrub_info, next_frame, record_send, record_recv, record_half_close, Call, send,
  recv, close, record_call, record_calls,
}

abbrev pub messages : List StreamFrame → List Bytes
messages = map (λ f. f.message)

-- The messages of each direction, as `scrub` leaves them.
abbrev pub sent_messages : (Bytes → Bytes) → List Call → List Bytes
sent_messages scrub [] = []
sent_messages scrub (send since m ∷ cs) = scrub m ∷ sent_messages scrub cs
sent_messages scrub (recv since m ∷ cs) = sent_messages scrub cs
sent_messages scrub (close since ∷ cs) = sent_messages scrub cs

abbrev pub received_messages : (Bytes → Bytes) → List Call → List Bytes
received_messages scrub [] = []
received_messages scrub (send since m ∷ cs) = received_messages scrub cs
received_messages scrub (recv since m ∷ cs) = scrub m ∷ received_messages scrub cs
received_messages scrub (close since ∷ cs) = received_messages scrub cs

module _ (scrub : Option StreamScrubFunc) (info : StreamScrubInfo) (fp : Bytes) where
  pub record Holds (r : StreamRecording) (ss rs : List Bytes) : Type 0 where
    pub live : r.finished ≡ false
    pub has_scrub : r.scrub ≡ scrub
    pub has_info : scrub_info r ≡ info
    pub has_fingerprint : r.fingerprint ≡ fp
    pub sends : messages r.sends ≡ ss
    pub recvs : messages r.recvs ≡ rs

  Holds-send :
      (r : StreamRecording) (since : ℤ) (m : Bytes) (ss rs : List Bytes)
      → Holds r ss rs
      → Holds (record_send r since m) (ss ++ scrub_frame scrub stream_send info m ∷ []) rs
  unfolding record_send
  Holds-send r since m ss rs h =
      let added : messages (r.sends ++ next_frame r stream_send since m ∷ [])
          ≡ ss ++ scrub_frame scrub stream_send info m ∷ [] =
        map-append (λ (f : StreamFrame). f.message) r.sends (next_frame r stream_send since m ∷ [])
        ∙ cc (h.sends, h.has_scrub, h.has_info) in
      simp h.live (record {
        live = refl;
        has_scrub = h.has_scrub;
        has_info = h.has_info;
        has_fingerprint = h.has_fingerprint;
        sends = added;
        recvs = h.recvs;
      })

  Holds-recv :
      (r : StreamRecording) (since : ℤ) (m : Bytes) (ss rs : List Bytes)
      → Holds r ss rs
      → Holds (record_recv r since m) ss (rs ++ scrub_frame scrub stream_recv info m ∷ [])
  unfolding record_recv
  Holds-recv r since m ss rs h =
      let added : messages (r.recvs ++ next_frame r stream_recv since m ∷ [])
          ≡ rs ++ scrub_frame scrub stream_recv info m ∷ [] =
        map-append (λ (f : StreamFrame). f.message) r.recvs (next_frame r stream_recv since m ∷ [])
        ∙ cc (h.recvs, h.has_scrub, h.has_info) in
      simp h.live (record {
        live = refl;
        has_scrub = h.has_scrub;
        has_info = h.has_info;
        has_fingerprint = h.has_fingerprint;
        sends = h.sends;
        recvs = added;
      })

  Holds-close :
      (r : StreamRecording) (since : ℤ) (ss rs : List Bytes)
      → Holds r ss rs
      → Holds (record_half_close r since) ss rs
  unfolding record_half_close
  Holds-close r since ss rs h =
      if_both (λ x. Holds x ss rs) _ h
        (record {
          live = h.live;
          has_scrub = h.has_scrub;
          has_info = h.has_info;
          has_fingerprint = h.has_fingerprint;
          sends = h.sends;
          recvs = h.recvs;
        })

  -- After any calls each direction holds its messages so far and then those of the calls.
  pub Holds-record_calls :
      (cs : List Call) (r : StreamRecording) (ss rs : List Bytes)
      → Holds r ss rs
      → Holds
          (record_calls r cs)
          (ss ++ sent_messages (scrub_frame scrub stream_send info) cs)
          (rs ++ received_messages (scrub_frame scrub stream_recv info) cs)
  unfolding record_calls record_call
  Holds-record_calls [] r ss rs h = simp append-nil h
  Holds-record_calls (send since m ∷ cs) r ss rs h =
      rw (append_assoc ss (scrub_frame scrub stream_send info m ∷ []) _) at
        (Holds-record_calls cs _ _ _ (Holds-send r since m ss rs h))
  Holds-record_calls (recv since m ∷ cs) r ss rs h =
      rw (append_assoc rs (scrub_frame scrub stream_recv info m ∷ []) _) at
        (Holds-record_calls cs _ _ _ (Holds-recv r since m ss rs h))
  Holds-record_calls (close since ∷ cs) r ss rs h =
      Holds-record_calls cs _ ss rs (Holds-close r since ss rs h)

-- ===== src/Stream/Cassette.antt =====
-- The interface `StreamCassette` of go/stream_cassette.go, with what its clients rely on. A value
-- of `Store` is the state of the medium; a failed save may have changed it.
pub mod Memory
use poly_xrr.Common.{ℤ, Bytes, AreBytes, All, Option, none, some, List, map, ◌≡◌}
use poly_xrr.Errors.{Result, ok}
use poly_xrr.Stream.Model.{StreamFrame, StreamPair}

-- What a frame keeps on the medium: the `text` flag only chooses between two encodings.
abbrev pub Content : Type 0
Content = ℤ × Bytes × Option ℤ

abbrev pub content : StreamFrame → Content
content f = (f.seq, f.message, f.at_ms)

-- Two pairs that hold the same interaction.
pub record SameStream (p q : StreamPair) : Type 0 where
  pub same_type : p.req.typ ≡ q.req.typ
  pub same_sends : map content p.req.frames ≡ map content q.req.frames
  pub same_recvs : map content p.resp.frames ≡ map content q.resp.frames
  pub same_half_close : p.req.half_close ≡ q.req.half_close
  pub same_end : p.resp.end ≡ q.resp.end
  pub same_error : p.recorded_err ≡ q.recorded_err

-- The messages of a pair are byte slices.
abbrev pub HasBytes : StreamPair → Type 0
HasBytes p =
    All AreBytes (map (λ (f : StreamFrame). f.message) p.req.frames)
    × All AreBytes (map (λ (f : StreamFrame). f.message) p.resp.frames)

-- `save_stream store adapter_id fingerprint pair`.
pub record StreamCassette (Store : Type 0) : Type 0 where
  pub load_stream : Store → Bytes → Bytes → Result StreamPair
  pub save_stream : Store → Bytes → Bytes → StreamPair → Store × Result (Unit {0})
  -- What was saved is what is loaded.
  pub load-save :
      (s s' : Store) (id fp : Bytes) (p : StreamPair)
      → HasBytes p
      → save_stream s id fp p ≡ (s', ok tt)
      → (q : StreamPair) × (load_stream s' id fp ≡ ok q) × SameStream p q

-- ===== src/Transport/Demux/Tests.antt =====
-- A concrete DATA frame with two messages, go/adapters/grpctransport/demux.go.
use poly_xrr.Common.{ℕ, codes, Bytes, true, false, ◌==◌, [], ◌∷◌, ◌≡◌, refl, if◌then◌else◌}
use poly_xrr.Errors.{ok}
use poly_xrr.Redact.{Redactor}
use poly_xrr.Transport.Reassembly.{round, of_length, prepend, drain, feed}
use poly_xrr.Transport.Demux.{data_frame, other_frame, new_conn_decoder, next}
use poly_xrr.Transport.Demux.Order.{tagged, upcoming, all_ok, upcoming-data_frame}

abbrev policy : Redactor
policy = record { disabled = false; allow = []; deny = [] }

-- Two messages, and two bytes of a third.
abbrev packed : Bytes
packed = 0 ∷ 0 ∷ 0 ∷ 0 ∷ 1 ∷ b'a' ∷ 0 ∷ 0 ∷ 0 ∷ 0 ∷ 1 ∷ b'b' ∷ 0 ∷ 0 ∷ []

split_up : feed [] packed ≡ (0 ∷ 0 ∷ [], ok (codes "a" ∷ codes "b" ∷ []))
unfolding feed drain round of_length prepend
split_up = refl

upcoming-data_frame_example :
    (upcoming (λ v. false) policy 2 new_conn_decoder (data_frame 1 packed true ∷ other_frame ∷ [])
      ≡ all_ok (tagged 1 true (codes "a" ∷ codes "b" ∷ [])))
    × ((j : ℕ)
        → (next
              (λ v. false)
              policy
              new_conn_decoder
              (data_frame 1 packed true ∷ other_frame ∷ [])).0.streams
            j
          ≡ (if j == 1 then 0 ∷ 0 ∷ [] else []))
upcoming-data_frame_example =
    upcoming-data_frame (λ v. false) policy new_conn_decoder 1 packed (0 ∷ 0 ∷ []) (codes "a")
      (codes "b" ∷ []) true (other_frame ∷ []) refl split_up

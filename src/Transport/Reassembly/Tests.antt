-- ===== src/Transport/Reassembly/Tests.antt =====
-- Concrete DATA frames for go/adapters/grpctransport/demux.go.
use poly_xrr.Common.{codes, Bytes, List, [], ◌∷◌, ◌≡◌, arith}
use poly_xrr.Errors.{ok}
use poly_xrr.Transport.Reassembly.{feed, feed_all, write_messages}
use poly_xrr.Transport.Reassembly.Fragments.{concat, feed_all-concat}
use poly_xrr.Transport.Reassembly.Written.{feed_all-write_messages}

abbrev pieces : List Bytes
pieces = (0 ∷ 0 ∷ 0 ∷ []) ∷ (0 ∷ 2 ∷ b'h' ∷ []) ∷ (b'i' ∷ 0 ∷ []) ∷ []

feed_all-concat_example : (feed_all [] pieces).1 ≡ (feed [] (concat pieces)).1
feed_all-concat_example = feed_all-concat pieces

feed_all-write_messages_example :
    (feed_all [] (write_messages (codes "hi" ∷ [] ∷ []))).1 ≡ ok (codes "hi" ∷ [] ∷ [])
feed_all-write_messages_example =
    feed_all-write_messages (codes "hi" ∷ [] ∷ []) (omega arith, (omega arith, tt))

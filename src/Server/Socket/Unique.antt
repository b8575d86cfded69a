-- ===== src/Server/Socket/Unique.antt =====
-- protocol.cc and io.cc: bytes say at most one sequence of packets.
use gearmand.Server.Socket.Arguments.{arguments_unique}
use gearmand.Prelude.{◌≡◌, refl, sym, ap, ◌∙◌, List, [], ◌∷◌, length, arith}
use mathlib.Core.Path.{subst}
use gearmand.Protocol.Packet.{Bytes, Packet}
use gearmand.Server.Socket.Receiving.{with_workload}
use gearmand.Server.Socket.Decodes.{IsFirst, Decodes}

first_unique :
    (all left left' : Bytes) (r r' : Packet)
    → IsFirst all r left
    → IsFirst all r' left'
    → (r ≡ r') × (left ≡ left')
first_unique all left left' r r' f g =
    let same = arguments_unique all f.rest g.rest f.packet g.packet f.arguments g.arguments in
    let e : ◌≡◌ {A = Packet × Bytes} (r, left) (r', left') =
      sym f.result ∙ ((λ i. with_workload (same.0 i) (same.1 i)) ∙ g.result) in
    (ap (λ (x : Packet × Bytes). x.0) e, ap (λ (x : Packet × Bytes). x.1) e)

-- Bytes say one sequence of packets: of two sequences that they say, as many packets, the packets and
-- the bytes behind them are the same.
pub Decodes-unique :
    (all after after' : Bytes) (q q' : List Packet)
    → length q ≡ length q'
    → Decodes all q after
    → Decodes all q' after'
    → (q ≡ q') × (after ≡ after')
Decodes-unique all after after' [] [] e d d' = (refl, sym d ∙ d')
Decodes-unique all after after' [] (r ∷ q') e d d' = absurd (omega (arith, e))
Decodes-unique all after after' (r ∷ q) [] e d d' = absurd (omega (arith, e))
Decodes-unique all after after' (r ∷ q) (r' ∷ q') e (left, (f, d)) (left', (g, d')) =
    let first = first_unique all left left' r r' f g in
    let rest =
      Decodes-unique left after after' q q' (omega (arith, e)) d
        (subst (λ x. Decodes x q' after') (sym first.1) d') in
    ((λ i. first.0 i ∷ rest.0 i), rest.1)

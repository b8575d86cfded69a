-- ===== src/Server/Socket/Arguments.antt =====
-- protocol.cc and io.cc: the header and the arguments at the front of some bytes.
use gearmand.Prelude.{
  drop-append_le, ℕ, ◌≡◌, ◌⊎◌, inl, inr, refl, sym, ap, ◌∙◌, [], ◌∷◌, ◌++◌, drop, arith,
}
use mathlib.Core.List.{append_assoc}
use gearmand.Protocol.Errors.{Error}
use gearmand.Protocol.Packet.{Bytes, Packet, reset}
use gearmand.Protocol.Packet.Wire.{Unpacked}
use gearmand.Protocol.Packet.Text.{unpack}
use gearmand.Protocol.Packet.Resume.Settled.{IsSettled, unpack-IsSettled}
use gearmand.Server.Socket.Workload.{blank_packet}

-- The header and the arguments are a packet's, and some of the bytes behind them its workload.
pub record IsArguments (all : Bytes) (a : Packet) (rest : Bytes) : Type 0 where
  pub head : Bytes
  pub tail : Bytes
  pub bytes : all ≡ head ++ tail
  pub used : ℕ
  pub unpacked : unpack blank_packet head ≡ (a, used, Error.success)
  pub behind : rest ≡ drop used head ++ tail

pub append-IsArguments :
    (all m : Bytes) (a : Packet) (x : Bytes)
    → IsArguments all a x
    → IsArguments (all ++ m) a (x ++ m)
append-IsArguments all m a x h = record {
  head = h.head;
  tail = h.tail ++ m;
  bytes = ap (λ y. y ++ m) h.bytes ∙ append_assoc h.head h.tail m;
  used = h.used;
  unpacked = h.unpacked;
  behind = ap (λ y. y ++ m) h.behind ∙ append_assoc (drop h.used h.head) h.tail m;
}

-- Of two beginnings of the same bytes one begins the other.
common_prefix :
    (h h' t t' : Bytes)
    → h ++ t ≡ h' ++ t'
    → ((c : Bytes) × ((h' ≡ h ++ c) × (t ≡ c ++ t')))
      ⊎ ((c : Bytes) × ((h ≡ h' ++ c) × (t' ≡ c ++ t)))
common_prefix [] h' t t' e = inl (h', (refl, e))
common_prefix (x ∷ h) [] t t' e = inr (x ∷ h, (refl, sym e))
common_prefix (x ∷ h) (y ∷ h') t t' e =
    let first : x ≡ y = cc e in
    elim (common_prefix h h' t t' (cc e)) [
      | inl (c, (p, q)) ↦ inl (c, ((λ i. sym first i ∷ p i), q))
      | inr (c, (p, q)) ↦ inr (c, ((λ i. first i ∷ p i), q))
    ]

module _ (a a' : Packet) (h t t' c : Bytes) (used used' : ℕ)
    (u : unpack blank_packet h ≡ (a, used, Error.success))
    (u' : unpack blank_packet (h ++ c) ≡ (a', used', Error.success)) (split : t ≡ c ++ t') where
  settled : IsSettled (unpack blank_packet) 0 h
  unfolding reset
  settled = unpack-IsSettled blank_packet h refl (ap (λ (r : Unpacked). r.2) u)

  same_unpacked : ◌≡◌ {A = Unpacked} (a, used, Error.success) (a', used', Error.success)
  same_unpacked = sym u ∙ (sym (settled.later c) ∙ u')

  same_rest : drop used h ++ t ≡ drop used' (h ++ c) ++ t'
  same_rest =
      let k : used ≡ used' = ap (λ (r : Unpacked). r.1) same_unpacked in
      let n : (unpack blank_packet h).1 ≡ used = ap (λ (r : Unpacked). r.1) u in
      rw (← k, drop-append_le used h c (omega (arith, n, settled.within)), split)
        (sym (append_assoc (drop used h) c t'))

pub arguments_unique :
    (all rest rest' : Bytes) (a a' : Packet)
    → IsArguments all a rest
    → IsArguments all a' rest'
    → (a ≡ a') × (rest ≡ rest')
arguments_unique all rest rest' a a' f g =
    elim (common_prefix f.head g.head f.tail g.tail (sym f.bytes ∙ g.bytes)) [
      | inl (c, (e, split)) ↦
          let u' = ap (unpack blank_packet) (sym e) ∙ g.unpacked in
          (
            ap (λ (r : Unpacked). r.0)
                (same_unpacked a a' f.head f.tail g.tail c f.used g.used f.unpacked u' split),
            f.behind
                ∙ (same_rest a a' f.head f.tail g.tail c f.used g.used f.unpacked u' split
                    ∙ (ap (λ x. drop g.used x ++ g.tail) (sym e) ∙ sym g.behind)),
          )
      | inr (c, (e, split)) ↦
          let u' = ap (unpack blank_packet) (sym e) ∙ f.unpacked in
          (
            sym (
                ap (λ (r : Unpacked). r.0)
                  (same_unpacked a' a g.head g.tail f.tail c g.used f.used g.unpacked u' split)),
            f.behind
                ∙ (ap (λ x. drop f.used x ++ f.tail) e
                    ∙ (sym (same_rest a' a g.head g.tail f.tail c g.used f.used g.unpacked u' split)
                        ∙ sym g.behind)),
          )
    ]

-- Bytes on which `unpack` asks for more hold no packet's arguments.
pub waits-no_arguments :
    (all rest : Bytes) (a : Packet)
    → (unpack blank_packet all).2 ≡ Error.io_wait
    → IsArguments all a rest
    → ⊥
unfolding reset
waits-no_arguments all rest a io f =
    let ok = ap (λ (r : Unpacked). r.2) f.unpacked in
    let s = unpack-IsSettled blank_packet f.head refl ok in
    let e : (unpack blank_packet all).2 ≡ Error.success =
      ap (λ x. (unpack blank_packet x).2) f.bytes
      ∙ (ap (λ (r : Unpacked). r.2) (s.later f.tail) ∙ ok) in
    absurd (cc (io, e))

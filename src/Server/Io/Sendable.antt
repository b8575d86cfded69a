-- ===== src/Server/Io/Sendable.antt =====
-- packet.cc and io.cc: a packet that `gearman_server_io_packet_add` makes may be sent.
use mathlib.Core.Path.{subst}
use gearmand.Prelude.{
  if-true, if-false, ◌≤◌, ◌≡◌, ◌⊎◌, inl, inr, refl, ◌∙◌, sym, ap, Bool, true, not, ◌&&◌, ◌||◌, none,
  some, List, [], ◌∷◌, length, ◌==◌, Bool-cases, arith,
}
use gearmand.Protocol.Errors.{Error, failed}
use gearmand.Protocol.Commands.{Magic, Command, command_info}
use gearmand.Protocol.Packet.{Bytes, Packet, reset, create_arg, create_args, pack_header, is_some}
use gearmand.Server.Io.Delivery.{made_packet}
use gearmand.Server.Socket.{send_buffer_room}
use gearmand.Server.Socket.Flush.{workload_of}
use gearmand.Server.Socket.Stream.{IsSendable}

-- The size of the data is that of the workload, if there is one.
record IsSized (p : Packet) : Type 0 where
  size : length (workload_of p) ≡ p.data_size
  there : (is_some p.workload ≡ true) ⊎ (p.data_size ≡ 0)

create_arg-IsSized : (p : Packet) (a : Bytes) → IsSized p → IsSized (create_arg p a).0
unfolding create_arg
create_arg-IsSized p a h =
    let info = command_info p.command in
    let many_args = (length p.arg == info.argc) && (not info.has_data || is_some p.workload) in
    elim (Bool-cases many_args) [
      | inl many ↦ subst (λ (r : Packet × Error). IsSized r.0) (sym (if-true many_args _ _ many)) h
      | inr fine ↦ elim (Bool-cases (length p.arg == info.argc)) [
        | inl full ↦
            subst (λ (r : Packet × Error). IsSized r.0)
              (sym (if-false many_args _ _ fine ∙ if-true (length p.arg == info.argc) _ _ full))
              record { size = refl; there = inl refl }
        | inr few ↦
            subst (λ (r : Packet × Error). IsSized r.0)
              (sym (if-false many_args _ _ fine ∙ if-false (length p.arg == info.argc) _ _ few))
              record { size = h.size; there = h.there }
      ]
    ]

create_args-IsSized : (p : Packet) (l : List Bytes) → IsSized p → IsSized (create_args p l).0
unfolding create_args
create_args-IsSized p [] h = h
create_args-IsSized p (a ∷ l) h = elim (Bool-cases (failed (create_arg p a).1)) [
  | inl bad ↦ rw (create_args, bad) (create_arg-IsSized p a h)
  | inr good ↦
      rw (create_args, good) (create_args-IsSized (create_arg p a).0 l (create_arg-IsSized p a h))
]

pack_header-workload : (p : Packet) → (pack_header p).0.workload ≡ p.workload
unfolding pack_header
pack_header-workload p = ground arith

pack_header-data_size : (p : Packet) → (pack_header p).0.data_size ≡ p.data_size
unfolding pack_header
pack_header-data_size p = ground arith

pack_header-complete :
    (p : Packet) → (pack_header p).1 ≡ Error.success → (pack_header p).0.complete ≡ true
unfolding pack_header
pack_header-complete p ok = ground arith

-- A packet that `gearman_server_io_packet_add` makes from its arguments and packs, with a header and
-- arguments that fit into the send buffer, is complete and its size is that of its workload, as
-- `gearman_io_send` needs it.
pub made_packet-IsSendable :
    (t : Bool) (m : Magic) (c : Command) (args : List Bytes)
    → (pack_header (create_args (reset m c) args).0).1 ≡ Error.success
    → length (made_packet t m c args).args ≤ send_buffer_room
    → IsSendable (made_packet t m c args)
unfolding reset
made_packet-IsSendable t m c args ok fits =
    let p = (create_args (reset m c) args).0 in
    let h : IsSized p =
      create_args-IsSized (reset m c) args record { size = refl; there = inr refl } in
    let kept = pack_header-workload p in
    record {
      complete = pack_header-complete p ok;
      header = fits;
      size =
          ap (λ w. length (elim w [ none ↦ [] | some d ↦ d ])) kept
          ∙ (h.size ∙ sym (pack_header-data_size p));
      there = elim h.there [
        | inl e ↦ inl (ap is_some kept ∙ e)
        | inr e ↦ inr (pack_header-data_size p ∙ e)
      ];
    }

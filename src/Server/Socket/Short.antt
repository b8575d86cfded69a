-- ===== src/Server/Socket/Short.antt =====
-- io.cc: a call of `gearmand_connection_recv_data` with too little in the buffer.
use gearmand.Prelude.{
  ltb→lt, ltb→le, take_all, drop_all, if-false, length-append, ◌+◌, ◌-◌, ◌<◌, ◌≡◌, inl, inr, refl,
  sym, ap, ◌∙◌, some, [], ◌++◌, length, take, ltb, ◌==◌, Bool-cases, arith, ==→eq,
}
use mathlib.Core.List.{append-nil}
use mathlib.Core.Path.{subst}
use gearmand.Protocol.Errors.{Error, failed, eq_success}
use gearmand.Protocol.Packet.{Bytes, Packet}
use gearmand.Server.Socket.{Socket}
use gearmand.Server.Socket.Flush.{workload_of}
use gearmand.Server.Socket.Recv.{connection_read, ReadBytes, smaller}
use gearmand.Server.Socket.Workload.{
  filled, counted_in, take_in, recv_data, from_buffer, after_read,
}
use gearmand.Server.Socket.Reads.{Reading, IsRead, IsUnread, connection_read-Reading}
use gearmand.Server.Socket.Loading.{IsInData, left_of, filled_twice}
use gearmand.Server.Socket.Refill.{
  DataRound, finished, counted_done, counted_more, counted_in-closed, recv_data_is, enough_buffered,
}

module _ (s : Socket) (q : Packet) (d : IsInData s q)
    (less : length s.recv_buffer < left_of q) where
  into : Packet
  into = filled q (take (length s.recv_buffer) s.recv_buffer)

  buffer_taken : take (length s.recv_buffer) s.recv_buffer ≡ s.recv_buffer
  buffer_taken = take_all (length s.recv_buffer) s.recv_buffer (omega arith)

  filled-into : (b : Bytes) → filled into b ≡ filled q (s.recv_buffer ++ b)
  unfolding into
  filled-into b = filled_twice q _ b ∙ ap (λ x. filled q (x ++ b)) buffer_taken

  into_nothing : into ≡ filled q (s.recv_buffer ++ [])
  unfolding into
  into_nothing = ap (filled q) (buffer_taken ∙ sym (append-nil s.recv_buffer))

  length-into : length (workload_of into) ≡ length (workload_of q) + length s.recv_buffer
  unfolding into
  length-into =
      length-append (workload_of q) (take (length s.recv_buffer) s.recv_buffer)
      ∙ ap (λ x. length (workload_of q) + length x) buffer_taken

  size-into : into.data_size ≡ q.data_size
  unfolding into
  size-into = refl

  module _ (t : Socket) (b : Bytes)
      (h : IsRead
        (length s.answers)
        (left_of q - length s.recv_buffer)
        (from_buffer s q (length s.recv_buffer))
        t
        b) where
    now : Socket
    now = record t { recv_packet = some (filled into b) }

    read_all :
        length s.recv_buffer + length b ≡ left_of q
        → DataRound s q (after_read (length s.recv_buffer) into (t, b, Error.success))
    unfolding now failed
    read_all z =
        let done : counted_in now (length s.recv_buffer + length b) ≡ finished now =
          counted_done now (length s.recv_buffer + length b)
            (omega (arith, z, h.data_size, h.data_offset, d.size, d.offset, d.some_left)) in
        let size : length (s.recv_buffer ++ b) ≡ left_of q = length-append s.recv_buffer b ∙ z in
        subst (DataRound s q) (ap (λ x. (x, filled into b, Error.success)) (sym done)) (
          inl (
            refl,
            inl (
              refl,
              record {
                more = b;
                incoming = h.incoming;
                packet =
                    filled-into b
                    ∙ ap (filled q)
                        (sym (take_all (left_of q) (s.recv_buffer ++ b) (omega (arith, size))));
                enough = omega (arith, size);
                left =
                    h.buffer
                    ∙ (drop_all (length s.recv_buffer) s.recv_buffer (omega arith)
                        ∙ sym (drop_all (left_of q) (s.recv_buffer ++ b) (omega (arith, size))));
                connected = h.connected;
                offset = refl;
                idle = refl;
              },
            ),
          ))

    read_some :
        length s.recv_buffer + length b < left_of q
        → DataRound s q (after_read (length s.recv_buffer) into (t, b, Error.success))
    unfolding now failed
    read_some less' =
        let more =
          counted_more now (length s.recv_buffer + length b)
            (omega (arith, less', h.data_size, h.data_offset, d.size, d.offset)) in
        let size : length (workload_of into ++ b)
            ≡ (length (workload_of q) + length s.recv_buffer) + length b =
          length-append (workload_of into) b ∙ ap (λ x. x + length b) length-into in
        subst (DataRound s q) (ap (λ x. (x, filled into b, Error.success)) (sym more)) (
          inl (
            refl,
            inr (record {
              bytes = b;
              came = h.incoming;
              none_left = h.buffer ∙ drop_all (length s.recv_buffer) s.recv_buffer (omega arith);
              le = omega (arith, length-append s.recv_buffer b);
              is = filled-into b;
              ready = record {
                connected = h.connected;
                size = h.data_size ∙ (d.size ∙ sym size-into);
                offset = omega (arith, size, h.data_offset, d.offset);
                some_left = omega (arith, size, size-into, less');
              };
              state = h.state;
              used = h.used;
            }),
          ))

  wait_some :
      (t : Socket)
      → IsUnread (from_buffer s q (length s.recv_buffer)) t
      → DataRound s q (counted_in t (length s.recv_buffer), into, Error.io_wait)
  unfolding into
  wait_some t h =
      let more =
        counted_more t (length s.recv_buffer)
          (omega (arith, less, h.data_size, h.data_offset, d.size, d.offset)) in
      let now : Socket = record t {
        recv_data_offset = t.recv_data_offset + length s.recv_buffer;
      } in
      let ready : IsInData now into = record {
        connected = h.connected;
        size = h.data_size ∙ (d.size ∙ sym size-into);
        offset = omega (arith, length-into, h.data_offset, d.offset);
        some_left = omega (arith, length-into, size-into, less);
      } in
      subst (λ x. DataRound s q (x, into, Error.io_wait)) (sym more)
        (inr (
          inl (
            refl,
            record {
              more = [];
              incoming = sym h.incoming;
              kept = h.packet ∙ ap some into_nothing;
              empty = h.buffer ∙ drop_all (length s.recv_buffer) s.recv_buffer (omega arith);
              ready = subst (IsInData now) into_nothing ready;
              state = h.state;
            },
          )))

  after_short :
      (r : ReadBytes)
      → Reading
          (length s.answers)
          (left_of q - length s.recv_buffer)
          (from_buffer s q (length s.recv_buffer))
          r
      → DataRound s q (after_read (length s.recv_buffer) into r)
  unfolding failed
  after_short (t, b, e) (inl (ok, h)) =
      subst (λ x. DataRound s q (after_read (length s.recv_buffer) into (t, b, x))) (sym ok)
        (elim (Bool-cases (length s.recv_buffer + length b == left_of q)) [
          | inl z ↦ read_all t b h (==→eq _ _ z)
          | inr z ↦ read_some t b h (ground (arith, h.fits))
        ])
  after_short (t, b, e) (inr (inl (io, h))) =
      subst (λ x. DataRound s q (after_read (length s.recv_buffer) into (t, b, x))) (sym io)
        (wait_some t h)
  after_short (t, b, e) (inr (inr (bad, off))) = elim (Bool-cases (failed e)) [
    | inl x ↦ rw x (inr (inr (bad, counted_in-closed t (length s.recv_buffer) off)))
    | inr x ↦ absurd (bad (eq_success e x))
  ]

  short_buffered : DataRound s q (recv_data s q)
  unfolding into
  short_buffered =
      let k : smaller (length s.recv_buffer) (left_of q) ≡ length s.recv_buffer = ground arith in
      let room = left_of q - length s.recv_buffer in
      let base = from_buffer s q (length s.recv_buffer) in
      let e : recv_data s q ≡ after_read (length s.recv_buffer) into (connection_read base room) =
        recv_data_is s q d
        ∙ (ap (λ n. take_in (left_of q) n s q) k
            ∙ if-false (left_of q == length s.recv_buffer) _ _ (ground arith)) in
      subst (DataRound s q) (sym e)
        (after_short (connection_read base room) (connection_read-Reading base room d.connected))

pub recv_data-DataRound : (s : Socket) (q : Packet) → IsInData s q → DataRound s q (recv_data s q)
recv_data-DataRound s q d = elim (Bool-cases (ltb (length s.recv_buffer) (left_of q))) [
  | inl less ↦ short_buffered s q d (ltb→lt _ _ less)
  | inr enough ↦ enough_buffered s q d (ltb→le _ _ enough)
]

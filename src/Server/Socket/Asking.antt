-- ===== src/Server/Socket/Asking.antt =====
-- io.cc and thread.cc: when a read ends to wait for more, the system has said that there is no more.
use gearmand.Prelude.{
  ℕ, zero, suc, ◌+◌, ◌-◌, ◌≡◌, ◌≢◌, ◌⊎◌, inl, inr, refl, sym, ap, ◌∙◌, Bool, true, false, Option,
  none, some, List, [], ◌∷◌, ◌++◌, length, take, ◌==◌, Bool-cases, arith, if-true, if-false,
}
use mathlib.Core.List.{append_assoc}
use mathlib.Core.Path.{subst}
use gearmand.Protocol.Errors.{Error, failed}
use gearmand.Protocol.Packet.{Packet}
use gearmand.Server.Socket.{
  Socket, Answer, Errno, RecvState, close, watch_in, wait_for, recv_buffer_room,
}
use gearmand.Server.Socket.Flush.{with_answers}
use gearmand.Server.Socket.Recv.{
  Unpacker, ReadBytes, Received, read_answers, connection_read, recv_loop, arrived, no_bytes, parse,
  parsed, with_bytes, smaller,
}
use gearmand.Server.Socket.Workload.{
  filled, counted_in, wanted, from_buffer, after_read, recv_data, data_loop, begin_data,
  after_arguments, blank_packet, io_recv,
}

-- The answers up to `rest` were used.
abbrev pub Used : List Answer → List Answer → Type 0
Used l rest = (used : List Answer) × (l ≡ used ++ rest)

-- The last of them was that the call would block, or there is none left.
abbrev pub Asked : List Answer → List Answer → Type 0
Asked l rest = ((used : List Answer) × (l ≡ used ++ (Answer.err Errno.eagain ∷ rest))) ⊎ (rest ≡ [])

Used-refl : (l : List Answer) → Used l l
Used-refl l = ([], refl)

Used-trans : (l m rest : List Answer) → Used l m → Used m rest → Used l rest
Used-trans l m rest (u, e) (v, f) = (u ++ v, e ∙ (ap (λ x. u ++ x) f ∙ sym (append_assoc u v rest)))

pub Used-Asked : (l m rest : List Answer) → Used l m → Asked m rest → Asked l rest
Used-Asked l m rest (u, e) (inl (v, f)) =
    inl (u ++ v, e ∙ (ap (λ x. u ++ x) f ∙ sym (append_assoc u v (Answer.err Errno.eagain ∷ rest))))
Used-Asked l m rest u (inr none_left) = inr none_left

-- What a read did with the answers.
abbrev AfterRead : List Answer → ReadBytes → Type 0
AfterRead l (t, b, e) = (e ≡ Error.io_wait → Asked l t.answers) × Used l t.answers

close-answers : (s : Socket) → (close s).answers ≡ s.answers
unfolding close
close-answers s = ground arith

wait-answers : (s : Socket) → (wait_for (watch_in s)).0.answers ≡ s.answers
unfolding watch_in close failed
wait-answers s = ground arith

closed-AfterRead :
    (s : Socket) (x : Answer) (rest : List Answer) (e : Error)
    → e ≢ Error.io_wait
    → AfterRead (x ∷ rest) (no_bytes (close (with_answers s rest), e))
closed-AfterRead s x rest e bad = (
  λ io. absurd (bad io),
  subst (Used (x ∷ rest)) (sym (close-answers (with_answers s rest))) (x ∷ [], refl),
)

arrived-AfterRead :
    (s : Socket) (x : Answer) (rest : List Answer) (n : ℕ)
    → AfterRead (x ∷ rest) (arrived (with_answers s rest) n)
arrived-AfterRead s x rest n = elim (Bool-cases (n == 0)) [
  | inl z ↦ rw z (closed-AfterRead s x rest Error.lost_connection (λ h. cc))
  | inr z ↦ rw z ((λ h. cc), (x ∷ [], refl))
]

longer-AfterRead :
    (l : List Answer) (x : Answer) (r : ReadBytes) → AfterRead l r → AfterRead (x ∷ l) r
longer-AfterRead l x (t, b, e) (asked, used) = (
  λ io. Used-Asked (x ∷ l) l t.answers (x ∷ [], refl) (asked io),
  Used-trans (x ∷ l) l t.answers (x ∷ [], refl) used,
)

read_answers-AfterRead :
    (l : List Answer) (s : Socket) (room : ℕ) → AfterRead l (read_answers l s room)
unfolding read_answers
read_answers-AfterRead [] s room = (
  λ io. inr (wait-answers (with_answers s [])),
  subst (Used []) (sym (wait-answers (with_answers s []))) ([], refl),
)
read_answers-AfterRead (Answer.took n ∷ rest) s room =
    arrived-AfterRead s (Answer.took n) rest (smaller n (smaller room (length s.incoming)))
read_answers-AfterRead (Answer.err Errno.eagain ∷ rest) s room =
    let x = Answer.err Errno.eagain in
    let same = wait-answers (with_answers s rest) in
    (
      λ io. subst (Asked (x ∷ rest)) (sym same) (inl ([], refl)),
      subst (Used (x ∷ rest)) (sym same) (x ∷ [], refl),
    )
read_answers-AfterRead (Answer.err Errno.eintr ∷ rest) s room =
    longer-AfterRead rest (Answer.err Errno.eintr) (read_answers rest s room)
      (read_answers-AfterRead rest s room)
read_answers-AfterRead (Answer.err Errno.epipe ∷ rest) s room =
    closed-AfterRead s _ rest _ (λ h. cc)
read_answers-AfterRead (Answer.err Errno.econnreset ∷ rest) s room =
    closed-AfterRead s _ rest _ (λ h. cc)
read_answers-AfterRead (Answer.err Errno.ehostdown ∷ rest) s room =
    closed-AfterRead s _ rest _ (λ h. cc)
read_answers-AfterRead (Answer.err Errno.enomem ∷ rest) s room =
    closed-AfterRead s _ rest _ (λ h. cc)
read_answers-AfterRead (Answer.err Errno.other_errno ∷ rest) s room =
    closed-AfterRead s _ rest _ (λ h. cc)

connection_read-AfterRead : (s : Socket) (room : ℕ) → AfterRead s.answers (connection_read s room)
unfolding connection_read
connection_read-AfterRead s room = read_answers-AfterRead s.answers s room

-- What a call of `gearman_io_recv` did with the answers.
abbrev pub Asks : List Answer → Option Received → Type 0
Asks l none = Unit
Asks l (some (Received.received t p)) = Used l t.answers
Asks l (some (Received.gave_up t e)) = (e ≢ Error.success) × (e ≡ Error.io_wait → Asked l t.answers)

Used-Asks : (l m : List Answer) (r : Option Received) → Used l m → Asks m r → Asks l r
Used-Asks l m none u h = tt
Used-Asks l m (some (Received.received t p)) u h = Used-trans l m t.answers u h
Used-Asks l m (some (Received.gave_up t e)) u h = (h.0, λ io. Used-Asked l m t.answers u (h.1 io))

not_success : (e : Error) → failed e ≡ true → e ≢ Error.success
unfolding failed
not_success e bad ok = let f = (rw ok at bad) in cc f

-- A read that fails ends the loop, and else the loop goes on.
after_read-Asks :
    (l : List Answer) (t : Socket) (e : Error) (again : Option Received)
    → (e ≡ Error.io_wait → Asked l t.answers)
    → Used l t.answers
    → Asks t.answers again
    → Asks l (elim (failed e) [ true ↦ some (Received.gave_up t e) | false ↦ again ])
after_read-Asks l t e again asked used next = elim (Bool-cases (failed e)) [
  | inl bad ↦ rw bad (not_success e bad, asked)
  | inr good ↦ rw good (Used-Asks l t.answers again used next)
]

recv_cases-Asks :
    (l : List Answer) (t : Socket) (p : Packet) (again : Option Received) (e : Error)
    → Used l t.answers
    → Asks l again
    → Asks l (elim e [
      | Error.success ↦ some (Received.received t p)
      | Error.io_wait ↦ again
      | x ↦ some (Received.gave_up (close t) x)
    ])
recv_cases-Asks l t p again Error.success u h = u
recv_cases-Asks l t p again Error.io_wait u h = h
recv_cases-Asks l t p again _ u h = ((λ x. cc x), λ x. cc x)

recv_loop-Asks :
    (n : ℕ) (unpack : Unpacker) (s : Socket) (p : Packet) → Asks s.answers (recv_loop n unpack s p)
unfolding recv_loop
recv_loop-Asks zero unpack s p = tt
recv_loop-Asks (suc n) unpack s p =
    let u = parse unpack p s.recv_buffer in
    let t = parsed s u in
    let r = connection_read t (recv_buffer_room - length t.recv_buffer) in
    let h = connection_read-AfterRead t (recv_buffer_room - length t.recv_buffer) in
    recv_cases-Asks s.answers t u.0 _ u.2 (Used-refl s.answers) (
      after_read-Asks s.answers r.0 r.2 _ h.0 h.1
        (recv_loop-Asks n unpack (with_bytes r.0 r.1) u.0))

counted_in-answers : (s : Socket) (n : ℕ) → (counted_in s n).answers ≡ s.answers
counted_in-answers s n = ground arith

-- What a call of `gearmand_connection_recv_data` did with the answers.
abbrev AfterData : List Answer → Socket × Packet × Error → Type 0
AfterData l (t, p, e) = (e ≡ Error.io_wait → Asked l t.answers) × Used l t.answers

after_read-AfterData :
    (l : List Answer) (k : ℕ) (p : Packet) (r : ReadBytes)
    → AfterRead l r
    → AfterData l (after_read k p r)
after_read-AfterData l k p (t, b, e) (asked, used) = elim (Bool-cases (failed e)) [
  | inl bad ↦
      let same = sym (counted_in-answers t k) in
      rw bad ((λ io. subst (Asked l) same (asked io)), subst (Used l) same used)
  | inr good ↦
      let u = record t { recv_packet = some (filled p b) } in
      let same = sym (counted_in-answers u (k + length b)) in
      rw good ((λ io. subst (Asked l) same (asked io)), subst (Used l) same used)
]

recv_data-AfterData : (s : Socket) (p : Packet) → AfterData s.answers (recv_data s p)
unfolding recv_data
recv_data-AfterData s p =
    let n = wanted s p in
    let k = smaller (length s.recv_buffer) n in
    let base = from_buffer s p k in
    elim (Bool-cases (s.recv_data_size == 0)) [
      | inl z ↦ rw z ((λ h. cc h), Used-refl s.answers)
      | inr more ↦ elim (Bool-cases (n == k)) [
        | inl e ↦
            simp (more, e)
              (
                (λ h. cc h),
                subst (Used s.answers) (sym (counted_in-answers base k)) (Used-refl s.answers),
              )
        | inr e ↦
            simp (more, e)
              (after_read-AfterData s.answers k (filled p (take k s.recv_buffer))
                (connection_read base (n - k)) (connection_read-AfterRead base (n - k)))
      ]
    ]

data_loop-Asks : (n : ℕ) (s : Socket) (p : Packet) → Asks s.answers (data_loop n s p)
unfolding data_loop
data_loop-Asks zero s p = tt
data_loop-Asks (suc n) s p = elim (Bool-cases (s.recv_data_size == 0)) [
  | inl z ↦ rw (data_loop, z) (Used-refl s.answers)
  | inr more ↦
      let r = recv_data s p in
      let h = recv_data-AfterData s p in
      rw (data_loop, more) (after_read-Asks s.answers r.0 r.2 _ h.0 h.1 (data_loop-Asks n r.0 r.1))
]

begin_data-Asks : (memory : Bool) (s : Socket) (p : Packet) → Asks s.answers (begin_data memory s p)
begin_data-Asks memory s p =
    let q = record p { workload = some []; free_data = true } in
    let t = record s {
      recv_data_size = p.data_size;
      recv_state = RecvState.read_data;
      recv_packet = some q;
    } in
    elim (Bool-cases (p.data_size == 0)) [
      | inl z ↦ rw z (Used-refl s.answers)
      | inr more ↦ elim (Bool-cases memory) [
        | inl there ↦ simp (more, there) (data_loop-Asks (length s.answers + 3) t q)
        | inr scarce ↦ simp (more, scarce) ((λ h. cc h), λ h. cc h)
      ]
    ]

after_arguments-Asks :
    (l : List Answer) (memory : Bool) (r : Option Received)
    → Asks l r
    → Asks l (after_arguments memory r)
unfolding after_arguments
after_arguments-Asks l memory none h = tt
after_arguments-Asks l memory (some (Received.gave_up t e)) h = h
after_arguments-Asks l memory (some (Received.received t p)) h =
    Used-Asks l t.answers (begin_data memory t p) h (begin_data-Asks memory t p)

io_recv_state-Asks :
    (st : RecvState) (k : Option Packet) (unpack : Unpacker) (memory : Bool) (s : Socket)
    → Asks s.answers (io_recv unpack memory (record s { recv_state = st; recv_packet = k }))
unfolding io_recv
io_recv_state-Asks RecvState.none_to_read k unpack memory s = elim (Bool-cases s.connected) [
  | inl on ↦
      let t = record s { recv_state = RecvState.reading; recv_packet = some blank_packet } in
      let r = recv_loop (length s.answers + 2) unpack t blank_packet in
      subst (Asks s.answers) (sym (if-true s.connected _ _ on)) (
        after_arguments-Asks s.answers memory r
          (recv_loop-Asks (length s.answers + 2) unpack t blank_packet))
  | inr off ↦ subst (Asks s.answers) (sym (if-false s.connected _ _ off)) ((λ h. cc h), λ h. cc h)
]
io_recv_state-Asks RecvState.reading none unpack memory s = tt
io_recv_state-Asks RecvState.reading (some p) unpack memory s =
    after_arguments-Asks s.answers memory _ (
      recv_loop-Asks (length s.answers + 2) unpack
        (record s { recv_state = RecvState.reading; recv_packet = some p }) p)
io_recv_state-Asks RecvState.read_data none unpack memory s = tt
io_recv_state-Asks RecvState.read_data (some p) unpack memory s =
    data_loop-Asks ((length s.answers + 2) + 1)
      (record s { recv_state = RecvState.read_data; recv_packet = some p }) p

-- `gearman_io_recv` returns to wait only when the system said that the call would block.
pub io_recv-Asks :
    (unpack : Unpacker) (memory : Bool) (s : Socket) → Asks s.answers (io_recv unpack memory s)
io_recv-Asks unpack memory s = io_recv_state-Asks s.recv_state s.recv_packet unpack memory s

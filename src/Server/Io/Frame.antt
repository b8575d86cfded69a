-- ===== src/Server/Io/Frame.antt =====
-- packet.cc and connection.cc: what queueing a packet leaves alone, and what it adds.
use gearmand.Prelude.{
  ℕ, ◌+◌, ◌≡◌, inl, inr, refl, ap, ◌∙◌, Bool, true, false, List, [], ◌∷◌, ◌++◌, ltb, ◌==◌,
  if◌then◌else◌, Bool-cases, arith, length, update, update_self,
}
use mathlib.Core.Path.{fun_ext, subst}
use gearmand.Protocol.Errors.{Error, failed}
use gearmand.Protocol.Commands.{Magic, Command}
use gearmand.Protocol.Packet.{Bytes, Packet, reset, create_args, pack_header}
use gearmand.Server.State.{Server, Con, set_con}
use gearmand.Server.Io.{
  io_packet_add, con_io_add, packet_create, packet_put_back, packed, filled, queued, joined,
}

-- A connection without its packets and its place on its thread's list.
abbrev pub quiet : Con → Con
quiet c = record c { io_list = false; io_packet_list = [] }

-- A server without what queueing a packet for connection `c` of thread `t` may change: that
-- connection's packets and place, that thread's list and how often it was woken, and the counts of
-- packets and objects.
unfoldable pub strip : ℕ → ℕ → Server → Server
strip c t s = record s {
  free_packet_count = 0;
  thread_io = update s.thread_io t [];
  thread_runs = update s.thread_runs t 0;
  next_object = 0;
  cons = update s.cons c (quiet (s.cons c));
}

-- What is written twice is what was written last.
update_twice {ℓ} :
    {A : Type ℓ} (f : ℕ → A) (k : ℕ) (a b : A) → update (update f k a) k b ≡ update f k b
update_twice f k a b =
    fun_ext (λ (j : ℕ). elim (Bool-cases (k == j)) [ inl hit ↦ rw hit | inr miss ↦ rw miss ])

strip-set_con :
    (s : Server) (c t : ℕ) (x : Con)
    → quiet x ≡ quiet (s.cons c)
    → strip c t (set_con s c x) ≡ strip c t s
unfolding strip
strip-set_con s c t x e =
    ap (λ (f : ℕ → Con). record (strip c t s) { cons = f })
      (update_twice s.cons c x (quiet (update s.cons c x c))
        ∙ ap (update s.cons c) (ap quiet (update_self s.cons c x) ∙ e))

strip-joined :
    (s : Server) (c : ℕ) (ws : List ℕ)
    → strip c (s.cons c).thread (joined s c ws) ≡ strip c (s.cons c).thread s
unfolding strip
strip-joined s c ws =
    let t = (s.cons c).thread in
    let runs = if length ws == 1 then s.thread_runs t + 1 else s.thread_runs t in
    let x = record (s.cons c) { io_list = true } in
    ap (λ (f : ℕ → List ℕ). record (strip c t (joined s c ws)) { thread_io = f })
      (update_twice s.thread_io t ws [])
    ∙ (ap (λ (f : ℕ → ℕ). record (strip c t (set_con s c x)) { thread_runs = f })
          (update_twice s.thread_runs t runs 0)
        ∙ strip-set_con s c t x refl)

-- A choice that does not matter to `strip`.
strip_if :
    (b : Bool) (c t : ℕ) (s u v : Server)
    → strip c t u ≡ strip c t s
    → strip c t v ≡ strip c t s
    → strip c t (if b then u else v) ≡ strip c t s
strip_if true c t s u v e f = e
strip_if false c t s u v e f = f

strip-con_io_add :
    (s : Server) (c t : ℕ) → (s.cons c).thread ≡ t → strip c t (con_io_add s c) ≡ strip c t s
unfolding con_io_add
strip-con_io_add s c t e =
    let r = joined s c (c ∷ s.thread_io (s.cons c).thread) in
    strip_if (s.cons c).io_list c t s s r refl (
      subst (λ u. strip c u r ≡ strip c u s) e
        (strip-joined s c (c ∷ s.thread_io (s.cons c).thread)))

strip-queued :
    (s : Server) (c t : ℕ) (p : Packet)
    → (s.cons c).thread ≡ t
    → strip c t (queued s c p) ≡ strip c t s
strip-queued s c t p e =
    let x = record (s.cons c) { io_packet_list = (s.cons c).io_packet_list ++ p ∷ [] } in
    strip-con_io_add (set_con s c x) c t (ap (λ (y : Con). y.thread) (update_self s.cons c x) ∙ e)
    ∙ strip-set_con s c t x refl

strip-packet_put_back : (s : Server) (c t : ℕ) → strip c t (packet_put_back s) ≡ strip c t s
unfolding packet_put_back strip
strip-packet_put_back s c t =
    strip_if (ltb s.free_packet_count 2000) c t s
      (record s { free_packet_count = s.free_packet_count + 1 }) s refl refl

strip-packed :
    (s : Server) (c t : ℕ) (take_data : Bool) (p : Packet) (e : Error)
    → (s.cons c).thread ≡ t
    → strip c t (packed s c take_data (p, e)).0 ≡ strip c t s
strip-packed s c t take_data p e h = elim (Bool-cases (failed e)) [
  | inl bad ↦ rw bad (strip-packet_put_back s c t)
  | inr good ↦ rw good (strip-queued s c t _ h)
]

strip-filled :
    (s : Server) (c t : ℕ) (take_data : Bool) (p : Packet) (e : Error)
    → (s.cons c).thread ≡ t
    → strip c t (filled s c take_data (p, e)).0 ≡ strip c t s
strip-filled s c t take_data p e h = elim (Bool-cases (failed e)) [
  | inl bad ↦ rw bad (strip-packet_put_back s c t)
  | inr good ↦ rw good (strip-packed s c t take_data (pack_header p).0 (pack_header p).1 h)
]

strip-packet_create : (s : Server) (c t : ℕ) → strip c t (packet_create s).1 ≡ strip c t s
unfolding packet_create strip
strip-packet_create s c t = elim (Bool-cases (ltb 0 s.free_packet_count)) [
  | inl e ↦ simp e
  | inr e ↦ simp e
]

packet_create-cons : (s : Server) → (packet_create s).1.cons ≡ s.cons
unfolding packet_create
packet_create-cons s = ground arith

-- Queueing a packet for a connection, whether it succeeds or not, changes nothing of the server but
-- that connection's packets and its place on its thread's list, that thread's list and how often the
-- thread was woken, and the counts of packets and objects: every other connection and every other
-- thread's list is as it was.
pub strip-io_packet_add :
    (s : Server) (c : ℕ) (take_data : Bool) (m : Magic) (command : Command) (args : List Bytes)
    → strip c (s.cons c).thread (io_packet_add s c take_data m command args).0
      ≡ strip c (s.cons c).thread s
unfolding io_packet_add
strip-io_packet_add s c take_data m command args =
    let r = create_args (reset m command) args in
    let t = (s.cons c).thread in
    let made_of = (packet_create s).1 in
    elim (Bool-cases (packet_create s).0) [
      | inl made ↦ simp made (
          strip-filled made_of c t take_data r.0 r.1
            (ap (λ (f : ℕ → Con). (f c).thread) (packet_create-cons s))
          ∙ strip-packet_create s c t)
      | inr none_left ↦ simp none_left (strip-packet_create s c t)
    ]

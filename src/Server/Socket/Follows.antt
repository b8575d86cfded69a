-- ===== src/Server/Socket/Follows.antt =====
-- io.cc: the bytes of a packet that comes in parts.
use gearmand.Prelude.{
  drop-append_le, drop-drop, length-drop, length-append, ℕ, ◌+◌, ◌≤◌, ◌≡◌, refl, sym, ap, ◌∙◌, [],
  ◌∷◌, ◌++◌, length, drop, arith,
}
use mathlib.Core.List.{append-nil, append_assoc}
use mathlib.Core.Path.{subst}
use native.Mathlib.Nat.{add_assoc}
use gearmand.Protocol.Errors.{Error}
use gearmand.Protocol.Packet.{Bytes, Packet}
use gearmand.Protocol.Packet.Wire.{Unpacked}
use gearmand.Protocol.Packet.Text.{unpack}
use gearmand.Protocol.Packet.Resume.{unpack-Resumes}
use gearmand.Protocol.Packet.Resume.Bounds.{unpack_within}
use gearmand.Protocol.Packet.Resume.Loop.{shifted}
use gearmand.Server.Socket.{Socket}
use gearmand.Server.Socket.Recv.{parse}

-- A packet was begun, and `all` came since: some of that is used, the rest is in the buffer, and to
-- go on from here gives what all of it at once gives.
pub record Follows (p : Packet) (all : Bytes) (s : Socket) (q : Packet) : Type 0 where
  pub used : ℕ
  pub within : used ≤ length all
  pub left : s.recv_buffer ≡ drop used all
  pub later : (b : Bytes) → unpack p (all ++ b) ≡ shifted used (unpack q (drop used all ++ b))
  pub asks : s.recv_buffer ≡ [] → unpack q [] ≡ (q, 0, Error.io_wait)

parse_same :
    (p : Packet) (a : Bytes)
    → (a ≡ [] → unpack p [] ≡ (p, 0, Error.io_wait))
    → parse unpack p a ≡ unpack p a
parse_same p [] asks = sym (asks refl)
parse_same p (b ∷ bs) asks = refl

nothing_used :
    (u r : Unpacked) → u ≡ shifted u.1 r → u.2 ≡ Error.io_wait → r ≡ (u.0, 0, Error.io_wait)
nothing_used (u, k, e) (q, n, c) h io =
    let packet : q ≡ u = sym (ap (λ (x : Unpacked). x.0) h) in
    let amount : k ≡ k + n = ap (λ (x : Unpacked). x.1) h in
    let zero_used : n ≡ 0 = omega (arith, amount) in
    let result : c ≡ Error.io_wait = sym (ap (λ (x : Unpacked). x.2) h) ∙ io in
    λ i. (packet i, zero_used i, result i)

shifted_twice : (k n : ℕ) (r : Unpacked) → shifted k (shifted n r) ≡ shifted (k + n) r
shifted_twice k n (q, m, e) = λ i. (q, sym (add_assoc k n m) i, e)

pub front_none : (a b : Bytes) → a ++ b ≡ [] → a ≡ []
front_none [] b h = refl
front_none (x ∷ a) b h = cc h

-- What `unpack` leaves where it asks for more is asked for again.
asks_again :
    (p : Packet) (a : Bytes)
    → (unpack p a).2 ≡ Error.io_wait
    → unpack (unpack p a).0 (drop (unpack p a).1 a) ≡ ((unpack p a).0, 0, Error.io_wait)
asks_again p a e =
    let r = unpack (unpack p a).0 (drop (unpack p a).1 a) in
    let h : unpack p a ≡ shifted (unpack p a).1 r =
      rw (append-nil a, append-nil (drop (unpack p a).1 a)) at (unpack-Resumes p a [] e) in
    nothing_used (unpack p a) r h e

module _ (p : Packet) (all : Bytes) (s : Socket) (q : Packet) (f : Follows p all s q) where
  pub parse_follows : parse unpack q s.recv_buffer ≡ unpack q (drop f.used all)
  parse_follows = parse_same q s.recv_buffer f.asks ∙ ap (unpack q) f.left

  pub all_at_once : unpack p all ≡ shifted f.used (unpack q (drop f.used all))
  all_at_once = rw (append-nil all, append-nil (drop f.used all)) at (f.later [])

  -- After a round that asks for more, and after the bytes that come then.
  pub next-Follows :
      (t : Socket) (b : Bytes)
      → (unpack q (drop f.used all)).2 ≡ Error.io_wait
      → t.recv_buffer ≡ drop (unpack q (drop f.used all)).1 (drop f.used all) ++ b
      → Follows p (all ++ b) t (unpack q (drop f.used all)).0
  next-Follows t b e same =
      let a = drop f.used all in
      let k = (unpack q a).1 in
      let k_le : k ≤ length a = unpack_within q a e in
      let le : f.used + k ≤ length all = omega (arith, f.within, length-drop f.used all) in
      let rest_of_it : (c : Bytes) → drop k a ++ (b ++ c) ≡ drop (f.used + k) (all ++ b) ++ c = λ c.
        rw
          (
            drop-append_le (f.used + k) all b le,
            append_assoc (drop (f.used + k) all) b c,
            drop-drop k f.used all,
          )
          refl in
      record {
        used = f.used + k;
        within = omega (arith, length-append all b);
        left = same ∙ rw (drop-drop k f.used all, drop-append_le (f.used + k) all b le) refl;
        later = λ c. rw (append_assoc all b c) (
            f.later (b ++ c)
            ∙ (ap (shifted f.used) (unpack-Resumes q a (b ++ c) e)
                ∙ (shifted_twice f.used k _
                    ∙ ap (λ x. shifted (f.used + k) (unpack (unpack q a).0 x)) (rest_of_it c))));
        asks = λ z.
            subst (λ x. unpack (unpack q a).0 x ≡ ((unpack q a).0, 0, Error.io_wait))
              (front_none (drop k a) b (sym same ∙ z)) (asks_again q a e);
      }

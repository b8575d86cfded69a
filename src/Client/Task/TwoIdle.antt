-- ===== src/Client/Task/TwoIdle.antt =====
-- run.cc and server_selection.cc: a list of connections that begins with two idle ones. A connection
-- that failed is idle again, and the search behind another one answers it.
use mathlib.Core.List.{Mem, mem-cons_self, mem-cons_of_mem, mem-cons, not-mem-nil}
use mathlib.Core.Logic.Or
use gearmand.Prelude.{
  inc32, ◌∙◌, sym, ℕ, ◌≡◌, ◌≢◌, refl, true, false, Option, none, some, List, [], ◌∷◌, inl, inr,
  Bool, Bool-cases, ◌==◌, ==_self, ==→eq, if◌then◌else◌,
}
use gearmand.Protocol.Packet.{Bytes, Packet}
use gearmand.Client.Return.{Return}
use gearmand.Client.Connection.{Connection, is_state_none}
use gearmand.Client.Selection.{Library, select_connection_by_key, is_eligible}
use gearmand.Client.Selection.Answer.{select_none_iff, answer-mem}
use gearmand.Client.Task.{Task, Client, find_con, change_con, expects_job_created}
use gearmand.Client.Task.Submit.{Send, address_of, take_slot}

-- Each send fails for want of a connection, which leaves the connection idle.
pub record Refuses (send : Send) : Type 0 where
  pub result : (c : Connection) (p : Packet) (b : Bool) → (send c p b).1 ≡ Return.could_not_connect
  pub address : (c : Connection) (p : Packet) (b : Bool) → (send c p b).0.address ≡ c.address
  pub idle :
      (c : Connection) (p : Packet) (b : Bool) → is_state_none (send c p b).0.send_state ≡ true

-- The list begins with two idle connections.
pub record TwoIdle (cs : List Connection) : Type 0 where
  pub first : Connection
  pub second : Connection
  pub others : List Connection
  pub listed : cs ≡ first ∷ second ∷ others
  pub differ : first.address ≢ second.address
  pub first_idle : is_state_none first.send_state ≡ true
  pub second_idle : is_state_none second.send_state ≡ true

-- A change of one connection that keeps its address and leaves it idle if it was.
pub record KeepsIdle (a : ℕ) (f : Connection → Connection) : Type 0 where
  pub address : (c : Connection) → c.address ≡ a → (f c).address ≡ a
  pub idle :
      (c : Connection) → is_state_none c.send_state ≡ true → is_state_none (f c).send_state ≡ true

pub changed : ℕ → (Connection → Connection) → Connection → Connection
changed a f c = if c.address == a then f c else c

pub changed-address :
    (a : ℕ) (f : Connection → Connection) (c : Connection)
    → KeepsIdle a f
    → (changed a f c).address ≡ c.address
unfolding changed
changed-address a f c k = elim (Bool-cases (c.address == a)) [
  | inl e ↦ rw e (k.address c (==→eq c.address a e) ∙ sym (==→eq c.address a e))
  | inr e ↦ rw e
]

changed-idle :
    (a : ℕ) (f : Connection → Connection) (c : Connection)
    → KeepsIdle a f
    → is_state_none c.send_state ≡ true
    → is_state_none (changed a f c).send_state ≡ true
unfolding changed
changed-idle a f c k i = elim (Bool-cases (c.address == a)) [
  | inl e ↦ rw e (k.idle c i)
  | inr e ↦ rw e i
]

pub change_con-TwoIdle :
    (a : ℕ) (f : Connection → Connection) (cs : List Connection)
    → KeepsIdle a f
    → TwoIdle cs
    → TwoIdle (change_con a f cs)
unfolding changed
change_con-TwoIdle a f cs k t = record {
  first = changed a f t.first;
  second = changed a f t.second;
  others = change_con a f t.others;
  listed = rw t.listed;
  differ =
      λ e. t.differ (sym (changed-address a f t.first k) ∙ (e ∙ changed-address a f t.second k));
  first_idle = changed-idle a f t.first k t.first_idle;
  second_idle = changed-idle a f t.second k t.second_idle;
}

not_first :
    (c d : Connection) (a : ℕ)
    → c.address ≢ d.address
    → c.address == a ≡ true
    → d.address == a ≡ false
not_first c d a n e = elim (Bool-cases (d.address == a)) [
  | inl f ↦ absurd (n (==→eq c.address a e ∙ sym (==→eq d.address a f)))
  | inr f ↦ f
]

found_first :
    (d : Connection) (cs : List Connection) (a : ℕ)
    → d.address == a ≡ true
    → find_con a (d ∷ cs) ≡ some d
found_first d cs a f = rw f

found_later :
    (d : Connection) (cs : List Connection) (a : ℕ)
    → d.address == a ≡ false
    → find_con a (d ∷ cs) ≡ find_con a cs
found_later d cs a f = rw f

eligible_other :
    (c : Connection) (a : ℕ)
    → c.address == a ≡ false
    → is_state_none c.send_state ≡ true
    → is_eligible (some a) c ≡ true
eligible_other c a n i = rw n i

-- Behind any address one of the two may be taken.
one_eligible :
    (cs : List Connection) (a : Option ℕ)
    → TwoIdle cs
    → (c : Connection) × Mem c cs × (is_eligible a c ≡ true)
one_eligible cs none t = (t.first, rw t.listed mem-cons_self, t.first_idle)
one_eligible cs (some a) t = elim (Bool-cases (t.first.address == a)) [
  | inr e ↦ (t.first, rw t.listed mem-cons_self, eligible_other t.first a e t.first_idle)
  | inl e ↦ (
    t.second,
    rw t.listed (mem-cons_of_mem t.first mem-cons_self),
    eligible_other t.second a (not_first t.first t.second a t.differ e) t.second_idle,
  )
]

find_con_mem : (cs : List Connection) (c : Connection) → Mem c cs → find_con c.address cs ≢ none
find_con_mem [] c m e = not-mem-nil m
find_con_mem (d ∷ cs) c m e = elim (Bool-cases (d.address == c.address)) [
  | inl f ↦ cc (found_first d cs c.address f)
  | inr f ↦
      Or.elim (hlevel) (mem-cons.0 m)
        (λ g. let same : d.address == c.address ≡ true = rw g (==_self d.address) in cc)
        (λ r. find_con_mem cs c r (sym (found_later d cs c.address f) ∙ e))
]

-- What the search behind an address answers is a connection of the list.
pub answered_con :
    (lib : Library) (cs : List Connection) (key : Bytes) (a : Option ℕ) (o : Option Connection)
    → TwoIdle cs
    → select_connection_by_key lib cs key a ≡ o
    → (b : ℕ) × (address_of o ≡ some b) × (find_con b cs ≢ none)
answered_con lib cs key a none t e =
    let (c, m, ok) = one_eligible cs a t in cc ((select_none_iff lib cs key a).0 e c m)
answered_con lib cs key a (some c) t e =
    (c.address, refl, find_con_mem cs c (answer-mem lib cs key a c e))

change_con-keeps :
    (cs : List Connection) (a b : ℕ) (f : Connection → Connection)
    → KeepsIdle a f
    → find_con b cs ≢ none
    → find_con b (change_con a f cs) ≢ none
unfolding changed
change_con-keeps [] a b f k n e = n e
change_con-keeps (d ∷ cs) a b f k n e = elim (Bool-cases (d.address == b)) [
  | inl g ↦
      let same : (changed a f d).address == b ≡ true = rw (changed-address a f d k) g in
      cc (found_first (changed a f d) (change_con a f cs) b same)
  | inr g ↦
      let same : (changed a f d).address == b ≡ false = rw (changed-address a f d k) g in
      change_con-keeps cs a b f k (λ m. n (found_later d cs b g ∙ m))
        (sym (found_later (changed a f d) (change_con a f cs) b same) ∙ e)
]

pub take_slot-keeps :
    (cl : Client) (t : Task) (a b : ℕ)
    → find_con b cl.con_list ≢ none
    → find_con b (take_slot cl t a).0.con_list ≢ none
unfolding take_slot
take_slot-keeps cl t a b n = elim (Bool-cases (expects_job_created t.send.command)) [
  | inl e ↦ rw e (
      change_con-keeps cl.con_list a b (λ c. record c { created_id_next = inc32 c.created_id_next })
        (record { address = λ c f. f; idle = λ c i. i }) n)
  | inr e ↦ rw e n
]

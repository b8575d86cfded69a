-- ===== src/Client/Task/Refused.antt =====
-- run.cc: a task whose server is chosen by the hash of its unique id, where no server can be
-- connected.
use gearmand.Prelude.{
  dec32, inc32, ◌∙◌, sym, ℕ, zero, suc, ◌≡◌, ◌≢◌, refl, true, none, some, List, inl, inr, Bool,
  Bool-cases, Option-cases, ◌==◌, take,
}
use gearmand.Protocol.Packet.{Bytes, Packet}
use gearmand.Client.Connection.{Connection}
use gearmand.Client.Selection.{Library, select_connection_by_key}
use mathlib.Core.Path.{subst}
use gearmand.Client.Task.Places.{find_con-address}
use gearmand.Client.Task.TwoIdle.{
  Refuses, TwoIdle, KeepsIdle, change_con-TwoIdle, answered_con, take_slot-keeps,
}
use gearmand.Client.Task.Choice.{take_slot-hash, give_up_slot-hash}
use gearmand.Client.Task.Run.{client_run_task, on_state}
use gearmand.Client.Task.{TaskState, Task, Client, Outcome, find_con, with_con, expects_job_created}
use gearmand.Client.Task.Submit.{
  Send, run_new, choose, has_connections, submit_loop, take_slot, give_up_slot, choose_next,
  use_hash_server_selection,
}

has_connections-two : (cs : List Connection) → TwoIdle cs → has_connections cs ≡ true
has_connections-two cs w = rw w.listed

module _ (lib : Library) (send : Send) (refuses : Refuses send) where
  abbrev refused : Client → ℕ → Connection → Packet → Client
  refused cl a c p = with_con a (λ _. (send c p (cl.new_tasks == 0)).0) cl

  send-KeepsIdle :
      (c : Connection) (a : ℕ) (p : Packet) (b : Bool)
      → c.address ≡ a
      → KeepsIdle a (λ _. (send c p b).0)
  send-KeepsIdle c a p b e = record {
    address = λ d f. refuses.address c p b ∙ e;
    idle = λ d i. refuses.idle c p b;
  }

  refused-TwoIdle :
      (cl : Client) (a : ℕ) (c : Connection) (p : Packet)
      → find_con a cl.con_list ≡ some c
      → TwoIdle cl.con_list
      → TwoIdle (refused cl a c p).con_list
  refused-TwoIdle cl a c p e t =
      change_con-TwoIdle a (λ _. (send c p (cl.new_tasks == 0)).0) cl.con_list
        (send-KeepsIdle c a p (cl.new_tasks == 0) (find_con-address cl.con_list a c e)) t

  give_up_slot-TwoIdle :
      (cl : Client) (t : Task) (a : ℕ)
      → TwoIdle cl.con_list
      → TwoIdle (give_up_slot cl t a).con_list
  give_up_slot-TwoIdle cl t a w = elim (Bool-cases (expects_job_created t.send.command)) [
    | inl e ↦ rw e (
        change_con-TwoIdle a (λ c. record c { created_id = inc32 c.created_id }) cl.con_list
          (record { address = λ c f. f; idle = λ c i. i }) w)
    | inr e ↦ rw e w
  ]

  take_slot-TwoIdle :
      (cl : Client) (t : Task) (a : ℕ) → TwoIdle cl.con_list → TwoIdle (take_slot cl t a).0.con_list
  unfolding take_slot
  take_slot-TwoIdle cl t a w = elim (Bool-cases (expects_job_created t.send.command)) [
    | inl e ↦ rw e (
        change_con-TwoIdle a (λ c. record c { created_id_next = inc32 c.created_id_next })
          cl.con_list (record { address = λ c f. f; idle = λ c i. i }) w)
    | inr e ↦ rw e w
  ]

  -- The failed send goes on with another connection.
  next_round :
      (rounds a b : ℕ) (cl : Client) (t : Task) (c : Connection)
      → find_con a cl.con_list ≡ some c
      → choose_next lib (give_up_slot (refused cl a c t.send) t a) t a ≡ some b
      → submit_loop (suc rounds) lib send a cl t
        ≡ submit_loop rounds lib send b
            (take_slot (give_up_slot (refused cl a c t.send) t a) t b).0
            (take_slot (give_up_slot (refused cl a c t.send) t a) t b).1
  unfolding submit_loop
  next_round rounds a b cl t c e n =
      rw (e, submit_loop, refuses.result c t.send (cl.new_tasks == 0), n) refl

  hash_choice :
      (cl : Client) (t : Task) (a : ℕ)
      → use_hash_server_selection cl t ≡ true
      → TwoIdle cl.con_list
      → (b : ℕ) × (choose_next lib cl t a ≡ some b) × (find_con b cl.con_list ≢ none)
  unfolding choose_next
  hash_choice cl t a h w =
      let key : Bytes = take t.unique_length t.unique in
      let (b, e, f) =
        answered_con lib cl.con_list key (some a)
          (select_connection_by_key lib cl.con_list key (some a)) w refl in
      (b, rw h e, f)

  loop_hangs :
      (rounds a : ℕ) (cl : Client) (t : Task)
      → use_hash_server_selection cl t ≡ true
      → TwoIdle cl.con_list
      → find_con a cl.con_list ≢ none
      → submit_loop rounds lib send a cl t ≡ Outcome.going_on
  unfolding submit_loop
  loop_hangs zero a cl t h w n = refl
  loop_hangs (suc rounds) a cl t h w n = elim (Option-cases (find_con a cl.con_list)) [
    | inl e ↦ absurd (n e)
    | inr (c, e) ↦
        let s : Client = give_up_slot (refused cl a c t.send) t a in
        let sw : TwoIdle s.con_list =
          give_up_slot-TwoIdle (refused cl a c t.send) t a (refused-TwoIdle cl a c t.send e w) in
        let sh : use_hash_server_selection s t ≡ true =
          give_up_slot-hash (refused cl a c t.send) t a ∙ h in
        let (b, choice, found) = hash_choice s t a sh sw in
        next_round rounds a b cl t c e choice
        ∙ loop_hangs rounds b (take_slot s t b).0 (take_slot s t b).1 (take_slot-hash s t b ∙ sh)
            (take_slot-TwoIdle s t b sw) (take_slot-keeps s t b b found)
  ]

  first_choice :
      (cl : Client) (t : Task)
      → use_hash_server_selection cl t ≡ true
      → TwoIdle cl.con_list
      → (a : ℕ) × (choose lib cl t ≡ some a) × (find_con a cl.con_list ≢ none)
  unfolding choose
  first_choice cl t h w =
      let key : Bytes = take t.unique_length t.unique in
      let (a, e, f) =
        answered_con lib cl.con_list key none (select_connection_by_key lib cl.con_list key none) w
          refl in
      (a, rw h e, f)

  new_hangs :
      (rounds : ℕ) (cl : Client) (t : Task)
      → use_hash_server_selection cl t ≡ true
      → TwoIdle cl.con_list
      → run_new rounds lib send cl t ≡ Outcome.going_on
  unfolding run_new
  new_hangs rounds cl t h w =
      let (a, e, f) = first_choice cl t h w in
      let begun : Client = record cl { new_tasks = dec32 cl.new_tasks } in
      rw (has_connections-two cl.con_list w, e)
        (loop_hangs rounds a (take_slot begun t a).0 (take_slot begun t a).1
          (take_slot-hash begun t a ∙ h) (take_slot-TwoIdle begun t a w)
          (take_slot-keeps begun t a a f))

-- Where servers are chosen by the hash of the unique id and the list begins with two idle connections
-- to different servers, _client_run_task on a new submission never ends while each send fails because
-- the server cannot be connected and leaves its connection idle: no number of rounds is enough for
-- its loop of sends.
pub client_run_task-hangs :
    (lib : Library) (send : Send) (rounds : ℕ) (cl : Client) (t : Task)
    → Refuses send
    → use_hash_server_selection cl t ≡ true
    → TwoIdle cl.con_list
    → t.state ≡ TaskState.new
    → client_run_task rounds lib send cl t ≡ Outcome.going_on
unfolding client_run_task on_state
client_run_task-hangs lib send rounds cl t refuses h w s =
    subst (λ z. on_state z rounds lib send cl t ≡ Outcome.going_on) (sym s)
      (new_hangs lib send refuses rounds cl t h w)

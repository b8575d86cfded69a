-- ===== src/Protocol/Packet/Sending.antt =====
-- packet.cc: the packet that the arguments of a call make.
use gearmand.Prelude.{
  ◌+◌, ◌<◌, ◌≤◌, ◌≡◌, refl, sym, ap, ◌∙◌, true, false, none, some, List, [], ◌∷◌, ◌++◌, length,
  arith, length-append,
}
use mathlib.Core.List.{append-nil, append_assoc}
use gearmand.Protocol.Errors.{Error, failed-success}
use gearmand.Protocol.Commands.{Magic, Command, command_info}
use gearmand.Protocol.Packet.{Bytes, Packet, create_arg, reset, is_text, blank_header, create_args}
use gearmand.Protocol.Packet.Args.{concat, create_arg-append}

create_args-received :
    (xs ys : List Bytes) (p : Packet)
    → 0 < length p.args
    → length p.arg + length xs ≤ (command_info p.command).argc
    → create_args p (xs ++ ys)
      ≡ create_args (record p { args = p.args ++ concat xs; arg = p.arg ++ xs }) ys
unfolding create_args
create_args-received [] ys p room few = simp append-nil
create_args-received (a ∷ xs) ys p room few =
    rw
      (
        create_arg-append p a room (omega arith),
        create_args,
        failed-success,
        create_arg-append p a room (omega arith),
      )
      (create_args-received xs ys (record p { args = p.args ++ a; arg = p.arg ++ a ∷ [] })
          (omega (arith, length-append p.args a)) (omega (arith, length-append p.arg (a ∷ [])))
        ∙ rw (append_assoc p.args a (concat xs), append_assoc p.arg (a ∷ []) xs))

-- The packet with its workload, ready for its header.
abbrev pub sent : Magic → Command → List Bytes → Bytes → Packet
sent m c xs d = record (reset m c) {
  args = blank_header ++ concat xs;
  arg = xs;
  workload = some d;
  data_size = length d;
}

create_arg-first :
    (m : Magic) (c : Command) (a : Bytes)
    → is_text m ≡ false
    → 0 < (command_info c).argc
    → create_arg (reset m c) a
      ≡ (record (reset m c) { args = blank_header ++ a; arg = a ∷ [] }, Error.success)
unfolding create_arg reset
create_arg-first m c a t few = ground arith

-- The packet without a workload, ready for its header.
abbrev pub bare : Magic → Command → List Bytes → Packet
bare m c xs = record (reset m c) { args = blank_header ++ concat xs; arg = xs }

pub create_args-bare :
    (m : Magic) (c : Command) (a : Bytes) (xs : List Bytes)
    → is_text m ≡ false
    → length (a ∷ xs) ≤ (command_info c).argc
    → create_args (reset m c) (a ∷ xs) ≡ (bare m c (a ∷ xs), Error.success)
unfolding create_args reset
create_args-bare m c a xs t few =
    let first = create_arg-first m c a t (omega arith) in
    let p = record (reset m c) { args = blank_header ++ a; arg = a ∷ [] } in
    rw (first, create_args, failed-success, first)
      (ap (create_args p) (sym (append-nil xs))
        ∙ create_args-received xs [] p (omega arith) (omega arith))

create_arg-workload :
    (p : Packet) (d : Bytes)
    → length p.arg ≡ (command_info p.command).argc
    → (command_info p.command).has_data ≡ true
    → p.workload ≡ none
    → create_arg p d ≡ (record p { workload = some d; data_size = length d }, Error.success)
unfolding create_arg
create_arg-workload p d full h w = ground arith

pub create_args-sent :
    (m : Magic) (c : Command) (a : Bytes) (xs : List Bytes) (d : Bytes)
    → is_text m ≡ false
    → (command_info c).has_data ≡ true
    → length (a ∷ xs) ≡ (command_info c).argc
    → create_args (reset m c) ((a ∷ xs) ++ d ∷ []) ≡ (sent m c (a ∷ xs) d, Error.success)
unfolding create_args reset
create_args-sent m c a xs d t h full =
    let first = create_arg-first m c a t (omega arith) in
    let p = record (reset m c) { args = blank_header ++ a; arg = a ∷ [] } in
    let q = record (reset m c) { args = blank_header ++ (a ++ concat xs); arg = a ∷ xs } in
    rw (first, create_args, failed-success, first)
      (create_args-received xs (d ∷ []) p (omega arith) (omega arith)
        ∙ rw (
          create_arg-workload q d full h refl,
          create_args,
          failed-success,
          create_arg-workload q d full h refl,
        ))

-- ===== src/Server/Commands/Text/Maxqueue.antt =====
-- text.cc: what `maxqueue` sets.
use gearmand.Prelude.{
  ℕ, ◌≡◌, length, c_str, inl, inr, refl, ap, ◌∙◌, arith, Bool, true, false, ◌&&◌, List, [], ◌∷◌,
  contains, bytes_eq, ◌==◌, if◌then◌else◌, Bool-cases, ==_self, ==→eq,
}
use gearmand.Protocol.Packet.{Bytes}
use gearmand.Server.State.{Server, Function, ByPriority, set_function}
use gearmand.Server.Commands.Text.Limits.{set_limits, queue_limits, limit_of}
use gearmand.Server.Commands.Text.Reports.{all_functions}
use gearmand.Server.Commands.Text.{text_maxqueue}
use gearmand.Protocol.Packet.{Packet}

-- The function with its new limits, if it is one of those visited and has the name.
abbrev pub limited : Bytes → ByPriority ℕ → Bool → Function → Function
limited name limits visited x =
    if visited && bytes_eq x.function_name name then record x { max_queue_size = limits } else x

abbrev set_one : Server → Bytes → ByPriority ℕ → ℕ → Server
set_one s name limits f =
    if bytes_eq (s.functions f).function_name name
    then set_function s f (record (s.functions f) { max_queue_size = limits })
    else s

set_one-here :
    (s : Server) (name : Bytes) (limits : ByPriority ℕ) (f : ℕ)
    → (set_one s name limits f).functions f ≡ limited name limits true (s.functions f)
set_one-here s name limits f = elim (Bool-cases (bytes_eq (s.functions f).function_name name)) [
  | inl e ↦ rw (e, ==_self f) refl
  | inr e ↦ rw e refl
]

set_one-there :
    (s : Server) (name : Bytes) (limits : ByPriority ℕ) (f g : ℕ)
    → f == g ≡ false
    → (set_one s name limits f).functions g ≡ s.functions g
set_one-there s name limits f g miss =
    elim (Bool-cases (bytes_eq (s.functions f).function_name name)) [
      | inl e ↦ rw (e, miss) refl
      | inr e ↦ rw e refl
    ]

-- Once limited, a function stays as it is.
limited_twice :
    (name : Bytes) (limits : ByPriority ℕ) (b : Bool) (x : Function)
    → limited name limits b (limited name limits true x) ≡ limited name limits true x
limited_twice name limits true x = elim (Bool-cases (bytes_eq x.function_name name)) [
  | inl e ↦ rw (e, e) refl
  | inr e ↦ rw (e, e) refl
]
limited_twice name limits false x = refl

-- Setting limits for a name over a list of functions gives them to each function of the list with
-- that name and changes no other function.
pub set_limits-each :
    (s : Server) (name : Bytes) (limits : ByPriority ℕ) (fs : List ℕ) (g : ℕ)
    → (set_limits s name limits fs).functions g
      ≡ limited name limits (contains g fs) (s.functions g)
unfolding set_limits contains
set_limits-each s name limits [] g = refl
set_limits-each s name limits (f ∷ fs) g =
    let rest = set_limits-each (set_one s name limits f) name limits fs g in
    elim (Bool-cases (f == g)) [
      | inl hit ↦
          let same = ==→eq f g hit in
          let here : (set_one s name limits f).functions g
              ≡ limited name limits true (s.functions g) =
            rw (← same) (set_one-here s name limits f) in
          rw (contains, hit)
            (rest
              ∙ (ap (limited name limits (contains g fs)) here
                  ∙ limited_twice name limits (contains g fs) (s.functions g)))
      | inr miss ↦
          rw (contains, miss)
            (rest ∙ ap (limited name limits (contains g fs)) (set_one-there s name limits f g miss))
    ]

-- The limits by the numbers that follow the name: without a number there is no limit, one number is
-- for all priorities, and of more each is for its own priority and a missing one is no limit.
abbrev pub limits_given : List Bytes → ByPriority ℕ
limits_given [] = record { of_high = 0; of_normal = 0; of_low = 0 }
limits_given (a ∷ []) = record { of_high = limit_of a; of_normal = limit_of a; of_low = limit_of a }
limits_given (a ∷ b ∷ []) = record { of_high = limit_of a; of_normal = limit_of b; of_low = 0 }
limits_given (a ∷ b ∷ c ∷ more) = record {
  of_high = limit_of a;
  of_normal = limit_of b;
  of_low = limit_of c;
}

-- A text packet with these words.
abbrev pub with_words : Packet → List Bytes → Packet
with_words p words = record p { arg = words }

queue_limits-given :
    (p : Packet) (word name : Bytes) (numbers : List Bytes)
    → queue_limits (with_words p (word ∷ name ∷ numbers)) ≡ limits_given numbers
unfolding queue_limits
queue_limits-given p word name [] = refl
queue_limits-given p word name (a ∷ []) = refl
queue_limits-given p word name (a ∷ b ∷ []) = refl
queue_limits-given p word name (a ∷ b ∷ c ∷ more) = ground arith

-- `maxqueue NAME NUMBER ...` gives each function in the table that has the name, up to its NUL, the
-- limits of the numbers: none is no limit, one is for all priorities, of more each is for its own
-- priority, the high one first, and a missing one is no limit. It changes no other function.
pub text_maxqueue-limits :
    (s : Server) (p : Packet) (g : ℕ) (word name : Bytes) (numbers : List Bytes)
    → (text_maxqueue s (with_words p (word ∷ name ∷ numbers))).0.functions g
      ≡ limited (c_str name) (limits_given numbers) (contains g (all_functions s)) (s.functions g)
unfolding text_maxqueue
text_maxqueue-limits s p g word name numbers =
    let q = with_words p (word ∷ name ∷ numbers) in
    let more : length q.arg == 1 ≡ false = ground arith in
    simp (more, queue_limits-given p word name numbers)
      (set_limits-each s (c_str name) (limits_given numbers) (all_functions s) g)

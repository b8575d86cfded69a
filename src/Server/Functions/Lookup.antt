-- ===== src/Server/Functions/Lookup.antt =====
-- function.cc: a function's name stands for one function.
use gearmand.Prelude.{
  ℕ, ◌≡◌, ◌∙◌, inl, inr, some, List, [], ◌∷◌, bytes_eq, Bool-cases, Option-cases, arith,
  bytes_eq_self, bytes_eq→eq, ap, Option,
}
use gearmand.Protocol.Packet.{Bytes}
use gearmand.Server.State.{Server}
use gearmand.Server.Functions.{
  function_get, function_create, find_function, function_key, Bytes, List, ℕ,
}

found_name :
    (s : Server) (name : Bytes) (fs : List ℕ) (f : ℕ)
    → find_function s name fs ≡ some f
    → (s.functions f).function_name ≡ name
unfolding find_function
found_name s name [] f e = cc
found_name s name (g ∷ fs) f e = elim (Bool-cases (bytes_eq (s.functions g).function_name name)) [
  | inl same ↦ ground (arith, bytes_eq→eq (s.functions g).function_name name same)
  | inr other ↦ found_name s name fs f (rw other at e)
]

created_found :
    (s t : Server) (name : Bytes) (f : ℕ)
    → function_create s name (function_key name) ≡ (t, some f)
    → (find_function t name (t.function_hash (function_key name)) ≡ some f)
      × ((t.functions f).function_name ≡ name)
unfolding function_create find_function
created_found s t name f e = ground (arith, bytes_eq_self name)

get_found :
    (t : Server) (name : Bytes) (f : ℕ)
    → find_function t name (t.function_hash (function_key name)) ≡ some f
    → function_get t name ≡ (t, some f)
unfolding function_get find_function
get_found t name f e = ground arith

again_old :
    (s t : Server) (name : Bytes) (f g : ℕ)
    → find_function s name (s.function_hash (function_key name)) ≡ some g
    → ◌≡◌ {A = Server × Option ℕ} (s, some g) (t, some f)
    → (function_get t name ≡ (t, some f)) × ((t.functions f).function_name ≡ name)
again_old s t name f g old e =
    let same : s ≡ t = ap (λ r. r.0) e in
    let found : find_function t name (t.function_hash (function_key name)) ≡ some f =
      rw (← same) (old ∙ ap (λ r. r.1) e) in
    (get_found t name f found, found_name t name _ f found)

-- A function that `gearman_server_function_get` returned has the name that was asked for, and the
-- next look-up of the name returns it and changes nothing.
pub function_get_again :
    (s t : Server) (name : Bytes) (f : ℕ)
    → function_get s name ≡ (t, some f)
    → (function_get t name ≡ (t, some f)) × ((t.functions f).function_name ≡ name)
unfolding function_get
function_get_again s t name f e =
    elim (Option-cases (find_function s name (s.function_hash (function_key name)))) [
      | inl new ↦
          let made = created_found s t name f (rw (function_get, new) at e) in
          (get_found t name f made.0, made.1)
      | inr (g, old) ↦ again_old s t name f g old (rw (function_get, old) at e)
    ]

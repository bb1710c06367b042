-- ===== src/Server/Held.antt =====
-- What the server instance holds: every block, address list and socket that it obtains is given
-- back, but for one socket; and the threads that use it.
use onyxnet.Prelude.{
  Bool, false, ℕ, zero, suc, ◌+◌, ◌≡◌, refl, Option, none, some, List, [], ◌∷◌, ltb, ◌==◌,
  if◌then◌else◌, Bool-cases, Option-cases, inl, inr, not, ◌||◌,
}
use onyxnet.Memory.{◌>>=◌}
use onyxnet.Server.{
  Params, Instance, System, Event, got_info, freed_info, got_block, freed_block, got_socket, closed,
  joined, started, set_running, reported, min_payload_size, with_size, with_port, set_up,
  open_instance, initialize,
}

pub record Held : Type 0 where
  pub infos : ℕ
  pub blocks : ℕ
  pub sockets : List ℕ
  pub threads : List ℕ
  pub running : Bool

abbrev pub nothing_held : Held
nothing_held = record { infos = 0; blocks = 0; sockets = []; threads = []; running = false }

-- The block of an instance, its socket and no thread.
abbrev pub at_rest : ℕ → List ℕ → Held
at_rest blocks fds = record {
  infos = 0;
  blocks = blocks;
  sockets = fds;
  threads = [];
  running = false;
}

abbrev pub one_less : ℕ → Option ℕ
one_less zero = none
one_less (suc n) = some n

abbrev pub without : ℕ → List ℕ → Option (List ℕ)
without fd [] = none
without fd (s ∷ ss) = if s == fd then some ss else none

-- One event; what is not held cannot be given back. A block that a thread uses cannot be freed, and a
-- thread cannot be waited for while the flag that it reads is set.
unfoldable pub after : Event → Held → Option Held
after got_info h = some (record h { infos = h.infos + 1 })
after freed_info h = one_less h.infos >>= (λ n. some (record h { infos = n }))
after got_block h = some (record h { blocks = h.blocks + 1 })
after freed_block h = elim h.threads [
  | [] ↦ one_less h.blocks >>= (λ n. some (record h { blocks = n }))
  | t ∷ ts ↦ none
]
after (got_socket fd) h = some (record h { sockets = fd ∷ h.sockets })
after (closed fd) h = without fd h.sockets >>= (λ ss. some (record h { sockets = ss }))
after (started t) h = some (record h { threads = t ∷ h.threads })
after (joined t) h =
    if h.running then none else without t h.threads >>= (λ ts. some (record h { threads = ts }))
after (set_running b) h = some (record h { running = b })
after (reported code text) h = some h

unfoldable pub after_all : List Event → Held → Option Held
after_all [] h = some h
after_all (e ∷ es) h = after e h >>= after_all es

unfoldable pub reports : List Event → ℕ
reports [] = 0
reports (reported code text ∷ es) = suc (reports es)
reports (_ ∷ es) = reports es

-- The socket that the operating system hands out on the way, if it gets there.
abbrev pub obtained : System → Params → List ℕ
obtained sys params =
    if ltb (with_size params).max_payload_size min_payload_size
      || not (sys.resolves (with_port (with_size params)).port)
      || not sys.has_memory
    then []
    else elim sys.socket [ none ↦ [] | some s ↦ s ∷ [] ]

abbrev pub present : Option Instance → ℕ
present none = 0
present (some udp) = 1

abbrev Keeps : Option Instance × List Event → List ℕ → Type 0
Keeps r fds =
    (after_all r.1 nothing_held ≡ some (at_rest (present r.0) fds))
    × (reports r.1 + present r.0 ≡ 1)

set_up-Keeps :
    (sys : System) (q : Params) (s : ℕ)
    → Keeps ((set_up sys q s).0, got_info ∷ got_block ∷ got_socket s ∷ (set_up sys q s).1) (s ∷ [])
unfolding set_up after_all after reports
set_up-Keeps sys q s = elim (Bool-cases (sys.unblocks s)) [
  | inr fails ↦ rw fails (refl, refl)
  | inl works ↦ rw works (elim (Bool-cases (sys.binds s)) [
    | inr fails ↦ rw fails (refl, refl)
    | inl bound ↦ rw bound (refl, refl)
  ])
]

abbrev pub opened : System → Params → List ℕ
opened sys q =
    if not (sys.resolves q.port) || not sys.has_memory
    then []
    else elim sys.socket [ none ↦ [] | some s ↦ s ∷ [] ]

open_instance-Keeps : (sys : System) (q : Params) → Keeps (open_instance sys q) (opened sys q)
unfolding open_instance after_all after reports
open_instance-Keeps sys q = elim (Bool-cases (sys.resolves q.port)) [
  | inr fails ↦ rw fails (refl, refl)
  | inl works ↦ rw works (elim (Bool-cases sys.has_memory) [
    | inr fails ↦ rw fails (refl, refl)
    | inl room ↦ rw room (elim (Option-cases sys.socket) [
      | inl missing ↦ rw missing (refl, refl)
      | inr (s, given) ↦ rw given (set_up-Keeps sys q s)
    ])
  ])
]

-- `udp_initialize` gives back every address list, keeps one block exactly if it returns an instance,
-- and reports one error exactly if it does not; but it keeps every socket that it obtains, also when
-- it fails after that.
pub initialize-Held :
    (sys : System) (params : Params)
    → (after_all ((initialize sys params).2) nothing_held
        ≡ some (at_rest (present ((initialize sys params).0)) (obtained sys params)))
      × (reports ((initialize sys params).2) + present ((initialize sys params).0) ≡ 1)
unfolding initialize open_instance set_up after_all after reports
initialize-Held sys params =
    elim (Bool-cases (ltb (with_size params).max_payload_size min_payload_size)) [
      | inl small ↦ rw small (refl, refl)
      | inr large ↦ rw large (open_instance-Keeps sys (with_port (with_size params)))
    ]

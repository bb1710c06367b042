-- ===== src/Server.antt =====
-- lib/onyxudp/udpbase.cpp: the server instance, from udp_initialize to udp_terminate. What the
-- operating system answers is an argument; what the code obtains, gives back and reports is a list.
pub mod Held
pub mod Stages
pub mod Loop
use onyxnet.Prelude.{
  ℕ, Bool, true, false, Option, none, some, List, [], ◌∷◌, ◌++◌, ltb, ◌==◌, ◌||◌, ◌&&◌, not,
  if◌then◌else◌,
}
use onyxnet.Api.{
  UdpErr, invalid_argument, address_error, out_of_memory, socket_error, io_error, udp_ok,
}
use Prim.Native.String.{String}

-- `udp_params_t`, as far as the instance reads it
pub record Params : Type 0 where
  pub port : ℕ
  pub max_payload_size : ℕ

-- `udp_instance_t`; a thread is a number, 0 for none.
pub record Instance : Type 0 where
  pub params : Params
  pub socket : ℕ
  pub running : Bool
  pub thread : ℕ

-- The answers to the calls of `udp_initialize`: which ports resolve, whether there is memory, the
-- socket, and for which sockets `fcntl` and `bind` succeed.
pub record System : Type 0 where
  pub resolves : ℕ → Bool
  pub has_memory : Bool
  pub socket : Option ℕ
  pub unblocks : ℕ → Bool
  pub binds : ℕ → Bool

pub data Event : Type 0 where
  got_info freed_info got_block freed_block : Event
  got_socket closed started joined : ℕ → Event
  set_running : Bool → Event
  reported : UdpErr → String → Event

abbrev pub default_max_payload_size : ℕ
default_max_payload_size = 1200

abbrev pub min_payload_size : ℕ
min_payload_size = 32

-- `udp_initialize` from the socket on.
unfoldable pub set_up : System → Params → ℕ → Option Instance × List Event
set_up sys params s =
    if not (sys.unblocks s)
    then (
      none,
      freed_info ∷ freed_block ∷ reported io_error "udp_initialize(): fcntl() failed" ∷ [],
    )
    else if not (sys.binds s)
    then (
      none,
      freed_info ∷ freed_block ∷ reported socket_error "udp_initialize(): bind() failed" ∷ [],
    )
    else (
      some (record { params = params; socket = s; running = false; thread = 0 }),
      freed_info ∷ [],
    )

-- `udp_initialize` from the call of `getaddrinfo` on.
unfoldable pub open_instance : System → Params → Option Instance × List Event
unfolding set_up
open_instance sys params =
    if not (sys.resolves params.port)
    then (none, reported address_error "udp_initialize(): getaddrinfo() failed" ∷ [])
    else if not sys.has_memory
    then (
      none,
      got_info ∷ freed_info ∷ reported out_of_memory "udp_initialize(): malloc() failed" ∷ [],
    )
    else elim sys.socket [
      | none ↦ (
        none,
        got_info
            ∷ got_block
            ∷ freed_info
            ∷ freed_block
            ∷ reported socket_error "udp_initialize(): socket() failed"
            ∷ [],
      )
      | some s ↦
          ((set_up sys params s).0, got_info ∷ got_block ∷ got_socket s ∷ (set_up sys params s).1)
    ]

-- The default size, and then the default port.
abbrev pub with_size : Params → Params
with_size params =
    if params.max_payload_size == 0
    then record params { max_payload_size = default_max_payload_size }
    else params

abbrev pub with_port : Params → Params
with_port params = if params.port == 0 then record params { port = 4812 } else params

-- `udp_initialize`: the instance or NULL, the parameters as it leaves them, and the events.
unfoldable pub initialize : System → Params → Option Instance × Params × List Event
unfolding open_instance
initialize sys params =
    if ltb (with_size params).max_payload_size min_payload_size
    then (
      none,
      with_size params,
      reported invalid_argument "udp_initialize(): min_payload_size too small" ∷ [],
    )
    else (
      (open_instance sys (with_port (with_size params))).0,
      with_port (with_size params),
      (open_instance sys (with_port (with_size params))).1,
    )

-- `udp_terminate`
unfoldable pub terminate : Option Instance → List Event
terminate none = []
terminate (some udp) =
    set_running false ∷ (if udp.thread == 0 then [] else joined udp.thread ∷ [])
    ++ closed udp.socket ∷ freed_block ∷ []

-- `udp_run`; the first argument is the thread that `pthread_create` makes, if it does.
unfoldable pub run : Option ℕ → Instance → UdpErr × Instance × List Event
run created udp =
    if udp.running || not (udp.thread == 0) then (invalid_argument, udp, []) else elim created [
      | none ↦ (
        io_error,
        record udp { running = false; thread = 0 },
        set_running true ∷ set_running false ∷ [],
      )
      | some t ↦
          (udp_ok, record udp { running = true; thread = t }, set_running true ∷ started t ∷ [])
    ]

-- `udp_poll`
abbrev pub poll : ℕ
poll = 0

pub data Step : Type 0 where
  polled slept : Step

-- `udp_run_func`; the list is what it reads in `running`, one reading after the other, and the steps
-- are those that it makes with these readings.
unfoldable pub run_loop : List Bool → List Step
run_loop [] = []
run_loop (false ∷ readings) = []
run_loop (true ∷ []) = polled ∷ []
run_loop (true ∷ again ∷ readings) =
    let rest = run_loop readings in polled ∷ (if poll == 0 && again then slept ∷ rest else rest)

-- ===== src/Client/Setup/Laws.antt =====
-- What a new client holds, and what a resolved address is.
use onyxnet.Prelude.{
  none-ne-some, subst, ℕ, ◌+◌, ◌%◌, ◌^◌, ◌≡◌, ◌≤◌, ◌<◌, ◌⊎◌, refl, ap, true, Option, none, some,
  List, [], ◌∷◌, ◌++◌, ltb, ltb→lt, leb, arith, Bool-cases, Option-cases, inl, inr, length,
  length-append, length-drop, take-append_left, get_or, take, drop, replicate,
}
use onyxnet.Memory.{write_bytes}
use onyxnet.Api.{udp_ok, address_error}
use onyxnet.HashTable as Tab
use onyxnet.HashTable.Life.{init_lem}
use onyxnet.HashTable.Valid.{pointer_or_null}
use onyxnet.Payload.{World}
use onyxnet.Server.{System, min_payload_size}
use onyxnet.Server.Held.{Held, at_rest, nothing_held, after, after_all, reports}
use onyxnet.Client.{Net, ClientParams, connection_funcs, address_size}
use onyxnet.Client.Sound.{IsSound, connection_at, connection_funcs-IsKeyed}
use onyxnet.Client.Setup.{
  store_address, connection_size, with_client_size, new_client, open_client, initialize,
  port_or_default, address_resolve,
}

-- A new client is sound, and has no connection for any address.
pub new_client_lem :
    (params : ClientParams) (bytes_at : ℕ → List ℕ) (w : World)
    → IsSound (new_client params bytes_at w)
      × ((q : List ℕ) → connection_at (new_client params bytes_at w) q ≡ 0)
unfolding Tab.init
new_client_lem params bytes_at w =
    let (valid, empty) =
      init_lem bytes_at connection_funcs connection_size 1 connection_funcs-IsKeyed in
    (
      record {
        valid = valid;
        by_pointer = refl;
        stored = λ q n e. absurd (none-ne-some (empty q) e);
        known = λ c k e. absurd (none-ne-some refl e);
        null_free = refl;
        quiet = λ c k e. absurd (none-ne-some refl e);
      },
      λ q. ap (pointer_or_null bytes_at connection_funcs) (empty q),
    )

-- What the two outcomes of an initialisation leave: nothing and a report, or a block, a socket and a
-- client with no connections.
abbrev pub Settles : Option (ℕ × Net) → Option Held → ℕ → Type 0
Settles none held said = (held ≡ some nothing_held) × (said ≡ 1)
Settles (some (s, net)) held said =
    (held ≡ some (at_rest 1 (s ∷ [])))
    × (said ≡ 0)
    × IsSound net
    × ((q : List ℕ) → connection_at net q ≡ 0)

open_client-Settles :
    (sys : System) (params : ClientParams) (bytes_at : ℕ → List ℕ) (w : World)
    → Settles
        ((open_client sys params bytes_at w).0)
        (after_all ((open_client sys params bytes_at w).1) nothing_held)
        (reports ((open_client sys params bytes_at w).1))
unfolding open_client after_all after reports
open_client-Settles sys params bytes_at w = elim (Bool-cases (sys.resolves 0)) [
  | inr fails ↦ rw fails (refl, refl)
  | inl works ↦ rw works (elim (Option-cases sys.socket) [
    | inl missing ↦ rw missing (refl, refl)
    | inr (s, given) ↦
        let (sound, empty) = new_client_lem params bytes_at w in rw given (refl, refl, sound, empty)
  ])
]

-- `udp_client_initialize` either returns NULL, reports one error and gives back all that it obtained,
-- or returns a client that is well-formed and has no connection, reports nothing and keeps one block
-- and its socket.
pub initialize-Settles :
    (sys : System) (params : ClientParams) (bytes_at : ℕ → List ℕ) (w : World)
    → Settles
        ((initialize sys params bytes_at w).0)
        (after_all ((initialize sys params bytes_at w).2) nothing_held)
        (reports ((initialize sys params bytes_at w).2))
unfolding initialize after_all after reports
initialize-Settles sys params bytes_at w =
    elim (Bool-cases (ltb (with_client_size params).max_payload_size min_payload_size)) [
      | inl small ↦ rw small (refl, refl)
      | inr large ↦ rw large (elim (Bool-cases sys.has_memory) [
        | inr fails ↦ rw fails (refl, refl)
        | inl room ↦ rw room (open_client-Settles sys (with_client_size params) bytes_at w)
      ])
    ]

-- The part of a resolved address that `sendto` is given.
abbrev pub sent_to : List ℕ → List ℕ
sent_to bytes = take (get_or bytes 1 0) (drop 2 bytes)

abbrev Stores : Option (List ℕ) → List ℕ → Type 0
Stores found out =
    ((store_address found out ≡ some (address_error, out))
      × ((address : List ℕ) → found ≡ some address → 30 < length address))
    ⊎ ((address : List ℕ) × (bytes : List ℕ) × (found ≡ some address)
        × (store_address found out ≡ some (udp_ok, bytes))
        × (length bytes ≡ address_size)
        × (sent_to bytes ≡ address))

store_address-Stores : (found : Option (List ℕ)) (out : List ℕ) → Stores found out
unfolding store_address write_bytes
store_address-Stores none out = inl (refl, λ address e. absurd (none-ne-some refl e))
store_address-Stores (some address) out = elim (Bool-cases (ltb 30 (length address))) [
  | inl long ↦ inl (
    rw long refl,
    λ address' e.
        subst (λ a. 30 < length a) (ap (λ o. elim o [ none ↦ address | some a ↦ a ]) e)
          (ltb→lt 30 (length address) long),
  )
  | inr short ↦
      let n = length address in
      let small : n ≤ 30 = ground (arith, short) in
      let fits : leb (2 + n) 32 ≡ true = ground (arith, small) in
      let rest = drop (2 + n) (1 ∷ (n % 2 ^ 8) ∷ replicate 30 0) in
      inr (
        address,
        1 ∷ (n % 2 ^ 8) ∷ (address ++ rest),
        refl,
        rw short (rw fits refl),
        omega (
          arith,
          length-append address rest,
          length-drop (2 + n) (1 ∷ (n % 2 ^ 8) ∷ replicate 30 0),
        ),
        take-append_left (n % 2 ^ 8) address rest (omega (arith, small)),
      )
]

-- Resolving an address never writes out of bounds. If no address is found, or one of more than 30 bytes,
-- the result is UDPERR_ADDRESS_ERROR and the output is not touched. Otherwise the result is UDP_OK and
-- 32 bytes, of which the part that packets are sent to is the address found; without a port, 4812 is
-- asked for.
pub address_resolve_lem :
    (names : List ℕ → List ℕ → Option (List ℕ)) (host port out : List ℕ)
    → let found = names host (port_or_default port) in
      ((address_resolve names host port out ≡ some (address_error, out))
        × ((address : List ℕ) → found ≡ some address → 30 < length address))
      ⊎ ((address : List ℕ) × (bytes : List ℕ) × (found ≡ some address)
          × (address_resolve names host port out ≡ some (udp_ok, bytes))
          × (length bytes ≡ address_size)
          × (sent_to bytes ≡ address))
unfolding address_resolve
address_resolve_lem names host port out =
    store_address-Stores (names host (port_or_default port)) out

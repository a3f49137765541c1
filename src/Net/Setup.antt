-- ===== src/Net/Setup.antt =====
-- How a listener of asio_tcp.cpp and a socket of asio_udp.cpp are set up.
use cnerium.Prelude.{ℕ, ◌≡◌, refl, List, [], ◌∷◌, arith, if◌then◌else◌}
use cnerium.Error.{ErrorCode, is_error, system_error, Outcome, returns, throws}
use cnerium.Net.{checked}
use cnerium.Net.Tcp.{
  TcpEndpoint, AcceptorCall, opens, reuses, binds, listens, AsioTcp, listen_at, async_listen,
}
use cnerium.Net.Udp.{UdpEndpoint, SocketCall, AsioUdp, bind_at, async_bind}
use cnerium.Net.Udp

-- The calls up to the first that fails, and the error of that one.
abbrev pub until_error : {C : Type 0} → List (C × ErrorCode) → List C
until_error [] = []
until_error ((c, ec) ∷ rest) = c ∷ (if is_error ec then [] else until_error rest)

abbrev pub first_error : {C : Type 0} → List (C × ErrorCode) → Outcome (Unit {0})
first_error [] = returns tt
first_error ((c, ec) ∷ rest) = if is_error ec then throws (system_error ec) else first_error rest

checked-until_error :
    {C : Type 0} (c : C) (ec : ErrorCode) (rest : List (C × ErrorCode))
    {r : List C × Outcome (Unit {0})}
    → r ≡ (until_error rest, first_error rest)
    → checked c ec r ≡ (until_error ((c, ec) ∷ rest), first_error ((c, ec) ∷ rest))
unfolding checked
checked-until_error c ec rest e = ground (arith, e)

-- The steps that follow a conversion, if that does not throw.
abbrev pub run_steps :
    {A C : Type 0} → (A → List (C × ErrorCode)) → Outcome A → List C × Outcome (Unit {0})
run_steps steps (throws e) = ([], throws e)
run_steps steps (returns a) = (until_error (steps a), first_error (steps a))

-- The steps of `async_listen` and of `async_bind` at an address, with their error codes.
abbrev pub listen_steps :
    {E A : Type 0} → AsioTcp E A → A → (port backlog : ℕ) → List (AcceptorCall A × ErrorCode)
listen_steps asio a port backlog =
    (opens a, asio.open_ a)
    ∷ (reuses, asio.set_reuse_address)
    ∷ (binds a port, asio.bind a port)
    ∷ (listens backlog, asio.listen backlog)
    ∷ []

abbrev pub bind_steps : {A : Type 0} → AsioUdp A → A → ℕ → List (SocketCall A × ErrorCode)
bind_steps asio a port = (Udp.opens a, asio.open_ a) ∷ (Udp.binds a port, asio.bind a port) ∷ []

listen_at-run_steps :
    {E A : Type 0} (asio : AsioTcp E A) (port backlog : ℕ) (o : Outcome A)
    → listen_at asio port backlog o ≡ run_steps (λ a. listen_steps asio a port backlog) o
unfolding listen_at
listen_at-run_steps asio port backlog (throws e) = refl
listen_at-run_steps asio port backlog (returns a) =
    let last = (listens backlog, asio.listen backlog) ∷ [] in
    let third = (binds a port, asio.bind a port) ∷ last in
    let second = (reuses, asio.set_reuse_address) ∷ third in
    checked-until_error (opens a) (asio.open_ a) second (
      checked-until_error reuses asio.set_reuse_address third (
        checked-until_error (binds a port) (asio.bind a port) last
          (checked-until_error (listens backlog) (asio.listen backlog) [] refl)))

bind_at-run_steps :
    {A : Type 0} (asio : AsioUdp A) (port : ℕ) (o : Outcome A)
    → bind_at asio port o ≡ run_steps (λ a. bind_steps asio a port) o
unfolding bind_at
bind_at-run_steps asio port (throws e) = refl
bind_at-run_steps asio port (returns a) =
    checked-until_error (Udp.opens a) (asio.open_ a) ((Udp.binds a port, asio.bind a port) ∷ [])
      (checked-until_error (Udp.binds a port) (asio.bind a port) [] refl)

-- A listener opens, sets its option, binds and listens, and a datagram socket opens and binds, in
-- this order and up to the first failure, whose error code is thrown as `system_error`; they return
-- if none fails. An address that is not valid is refused before any call.
pub async_listen-run_steps :
    {E A : Type 0} (tcp : AsioTcp E A) (udp : AsioUdp A) (ep : TcpEndpoint) (ep' : UdpEndpoint)
    (backlog : ℕ)
    → (async_listen tcp ep backlog
        ≡ run_steps (λ a. listen_steps tcp a ep.port backlog) (tcp.make_address ep.host))
      × (async_bind udp ep'
          ≡ run_steps (λ a. bind_steps udp a ep'.port) (udp.make_address ep'.host))
unfolding async_listen async_bind
async_listen-run_steps tcp udp ep ep' backlog = (
  listen_at-run_steps tcp ep.port backlog (tcp.make_address ep.host),
  bind_at-run_steps udp ep'.port (udp.make_address ep'.host),
)

-- ===== src/Net/Udp.antt =====
-- include/vix/async/net/udp.hpp and src/net/asio_udp.cpp: datagram sockets, over the operations of
-- Asio.
use Prim.Native.String.{String}
use cnerium.Prelude.{ℕ, Bool, Option, some, List, [], ◌∷◌, ◌++◌}
use cnerium.Error.{ErrorCode, Outcome, returns, throws}
use cnerium.Cancel.{CancelToken}
use cnerium.Net.{Operation, World, Moment, co_asio, and_then, checked}

pub record UdpEndpoint : Type 0 where
  pub host : String
  pub port : ℕ  -- uint16_t

pub record UdpDatagram : Type 0 where
  pub from : UdpEndpoint
  pub bytes : ℕ

-- The calls into Asio; an `A` is an address.
pub data SocketCall (A : Type 0) : Type 0 where
  opens : A → SocketCall A
  binds : A → ℕ → SocketCall A
  sends_to : List ℕ → A → ℕ → SocketCall A
  receives : ℕ → SocketCall A
  closes : SocketCall A

-- How the calls end. A receive gives the number of bytes with the endpoint that it stores.
pub record AsioUdp (A : Type 0) : Type 0 where
  pub make_address : String → Outcome A
  pub to_string : A → String
  pub open_ : A → ErrorCode
  pub bind : A → ℕ → ErrorCode
  pub async_send_to : List ℕ → A → ℕ → Operation ℕ
  pub async_receive_from : ℕ → Operation (ℕ × (A × ℕ))
  pub close : ErrorCode
  -- what a socket is after some calls
  pub is_open : List (SocketCall A) → Bool

module _ {A : Type 0} (asio : AsioUdp A) where
  unfoldable pub bind_at : ℕ → Outcome A → List (SocketCall A) × Outcome (Unit {0})
  unfolding checked
  bind_at port (throws e) = ([], throws e)
  bind_at port (returns a) =
      checked (opens a) (asio.open_ a) (checked (binds a port) (asio.bind a port) ([], returns tt))

  -- `udp_socket_asio::async_bind`: the calls that are made, and how it ends.
  unfoldable pub async_bind : UdpEndpoint → List (SocketCall A) × Outcome (Unit {0})
  unfolding bind_at
  async_bind ep = bind_at ep.port (asio.make_address ep.host)

  -- The datagram of what a receive has given.
  unfoldable pub datagram : ℕ × (A × ℕ) → UdpDatagram
  datagram (received, (a, port)) = record {
    from = record { host = asio.to_string a; port = port };
    bytes = received;
  }

module _ {G A : Type 0} (asio : AsioUdp A) where
  unfoldable pub send_at :
      Moment
      → CancelToken
      → List ℕ
      → ℕ
      → Outcome A
      → World G (SocketCall A)
      → World G (SocketCall A) × Option (Outcome ℕ)
  unfolding co_asio
  send_at m ct buf port (throws e) w = (w, some (throws e))
  send_at m ct buf port (returns a) w =
      co_asio m ct (sends_to buf a port) (asio.async_send_to buf a port) w

  unfoldable pub async_send_to :
      Moment
      → CancelToken
      → List ℕ
      → UdpEndpoint
      → World G (SocketCall A)
      → World G (SocketCall A) × Option (Outcome ℕ)
  unfolding send_at
  async_send_to m ct buf to w = send_at m ct buf to.port (asio.make_address to.host) w

  unfoldable pub async_recv_from :
      Moment
      → CancelToken
      → (size : ℕ) → World G (SocketCall A)
      → World G (SocketCall A) × Option (Outcome UdpDatagram)
  unfolding co_asio and_then datagram
  async_recv_from m ct size w =
      and_then (co_asio m ct (receives size) (asio.async_receive_from size) w)
        (λ r w'. (w', some (returns (datagram asio r))))

  -- `udp_socket_asio::close`: the error of the call is dropped.
  unfoldable pub close_socket : World G (SocketCall A) → World G (SocketCall A)
  close_socket w = let ignored = asio.close in record w { calls = w.calls ++ closes ∷ [] }

  unfoldable pub socket_is_open : World G (SocketCall A) → Bool
  socket_is_open w = asio.is_open w.calls

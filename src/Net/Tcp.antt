-- ===== src/Net/Tcp.antt =====
-- include/vix/async/net/tcp.hpp and src/net/asio_tcp.cpp: streams and listeners, over the operations
-- of Asio. A port given to the resolver stands for its decimal text.
use Prim.Native.String.{String}
use cnerium.Prelude.{ℕ, Bool, Option, some, List, [], ◌∷◌, ◌++◌}
use cnerium.Error.{ErrorCode, Outcome, returns, throws}
use cnerium.Cancel.{CancelToken}
use cnerium.Net.{Operation, refuses, completes, World, Moment, co_asio, and_then, checked}

pub record TcpEndpoint : Type 0 where
  pub host : String
  pub port : ℕ  -- uint16_t

-- The calls into Asio of a stream and of a listener; an `E` is an endpoint, an `A` an address.
pub data StreamCall (E : Type 0) : Type 0 where
  resolves : String → ℕ → StreamCall E
  connects : List E → StreamCall E
  reads : ℕ → StreamCall E
  writes : List ℕ → StreamCall E
  accepts : StreamCall E
  closes : StreamCall E

pub data AcceptorCall (A : Type 0) : Type 0 where
  opens : A → AcceptorCall A
  reuses : AcceptorCall A
  binds : A → ℕ → AcceptorCall A
  listens : ℕ → AcceptorCall A
  closes : AcceptorCall A

-- How the calls end.
pub record AsioTcp (E A : Type 0) : Type 0 where
  pub async_resolve : String → ℕ → Operation (List E)
  pub async_connect : List E → Operation E
  pub async_read_some : ℕ → Operation ℕ
  pub async_write : List ℕ → Operation ℕ
  pub async_accept : Operation (Unit {0})
  pub make_address : String → Outcome A
  pub open_ : A → ErrorCode
  pub set_reuse_address : ErrorCode
  pub bind : A → ℕ → ErrorCode
  pub listen : ℕ → ErrorCode
  pub close : ErrorCode
  -- what a stream and a listener are after some calls
  pub is_open : List (StreamCall E) → Bool
  pub native_handle : List (StreamCall E) → Outcome ℕ
  pub is_listening : List (AcceptorCall A) → Bool

-- A handler that drops its value: `done(ec)`.
unfoldable pub drop_value : {R : Type 0} → Operation R → Operation (Unit {0})
drop_value (refuses e) = refuses e
drop_value (completes ec v) = completes ec tt

module _ {G E A : Type 0} (asio : AsioTcp E A) where
  -- `tcp_stream_asio::async_connect`, with what `ctx_.net()` gives and the moments of its two awaits.
  unfoldable pub async_connect :
      Outcome ℕ
      → Moment
      → Moment
      → CancelToken
      → TcpEndpoint
      → World G (StreamCall E)
      → World G (StreamCall E) × Option (Outcome (Unit {0}))
  unfolding co_asio and_then drop_value
  async_connect (throws e) m1 m2 ct ep w = (w, some (throws e))
  async_connect (returns net) m1 m2 ct ep w =
      and_then (co_asio m1 ct (resolves ep.host ep.port) (asio.async_resolve ep.host ep.port) w)
        (λ results w'.
          co_asio m2 ct (connects results) (drop_value (asio.async_connect results)) w')

  unfoldable pub async_read :
      Moment
      → CancelToken
      → (size : ℕ) → World G (StreamCall E)
      → World G (StreamCall E) × Option (Outcome ℕ)
  unfolding co_asio
  async_read m ct size w = co_asio m ct (reads size) (asio.async_read_some size) w

  unfoldable pub async_write :
      Moment
      → CancelToken
      → List ℕ
      → World G (StreamCall E)
      → World G (StreamCall E) × Option (Outcome ℕ)
  unfolding co_asio
  async_write m ct buf w = co_asio m ct (writes buf) (asio.async_write buf) w

  -- `tcp_listener_asio::async_accept`, with what the construction of the client gives: its address.
  unfoldable pub async_accept :
      Outcome ℕ
      → Moment
      → CancelToken
      → World G (StreamCall E)
      → World G (StreamCall E) × Option (Outcome ℕ)
  unfolding co_asio and_then
  async_accept (throws e) m ct w = (w, some (throws e))
  async_accept (returns client) m ct w =
      and_then (co_asio m ct accepts asio.async_accept w) (λ u w'. (w', some (returns client)))

  -- `tcp_stream_asio::close`: the error of the call is dropped.
  unfoldable pub close_stream : World G (StreamCall E) → World G (StreamCall E)
  close_stream w =
      let ignored = asio.close in record w { calls = w.calls ++ StreamCall.closes ∷ [] }

  unfoldable pub stream_is_open : World G (StreamCall E) → Bool
  stream_is_open w = asio.is_open w.calls

  -- `tcp_stream_asio::native_handle`
  unfoldable pub native_handle : World G (StreamCall E) → Outcome ℕ
  native_handle w = asio.native_handle w.calls

module _ {E A : Type 0} (asio : AsioTcp E A) where
  unfoldable pub listen_at : ℕ → ℕ → Outcome A → List (AcceptorCall A) × Outcome (Unit {0})
  unfolding checked
  listen_at port backlog (throws e) = ([], throws e)
  listen_at port backlog (returns a) = checked (opens a) (asio.open_ a) (
      checked reuses asio.set_reuse_address (
        checked (binds a port) (asio.bind a port)
          (checked (listens backlog) (asio.listen backlog) ([], returns tt))))

  -- `tcp_listener_asio::async_listen`: the calls that are made, and how it ends.
  unfoldable pub async_listen :
      TcpEndpoint → (backlog : ℕ) → List (AcceptorCall A) × Outcome (Unit {0})
  unfolding listen_at
  async_listen ep backlog = listen_at ep.port backlog (asio.make_address ep.host)

  -- `tcp_listener_asio::close` and `is_open`, after some calls.
  unfoldable pub close_listener : List (AcceptorCall A) → List (AcceptorCall A)
  close_listener calls = let ignored = asio.close in calls ++ AcceptorCall.closes ∷ []

  unfoldable pub listener_is_open : List (AcceptorCall A) → Bool
  listener_is_open calls = asio.is_listening calls

-- ===== src/Net/Flow.antt =====
-- How the operations of asio_tcp.cpp, asio_udp.cpp and asio_dns.cpp that wait for more than one thing,
-- or work on what they get, end.
use Prim.Native.String.{String}
use cnerium.Prelude.{
  ℕ, ◌≡◌, refl, sym, ap, ◌∙◌, false, Option, none, some, List, [], ◌∷◌, ◌++◌, map, append-nil,
  append_assoc, fun_ext, ◌==◌, if◌then◌else◌,
}
use cnerium.Error.{system_error, Outcome, returns, throws}
use cnerium.Cancel.{CancelToken, is_cancelled, cancelled_ec}
use cnerium.Scheduler.{null}
use cnerium.Net.{Operation, World, Moment, co_asio, and_then}
use cnerium.Net.Await.{outcome_of, Lasts, co_asio-outcome_of}
use cnerium.Net.Tcp.{
  TcpEndpoint, StreamCall, resolves, connects, accepts, AsioTcp, drop_value, async_connect,
  async_accept,
}
use cnerium.Net.Udp.{SocketCall, receives, AsioUdp, datagram, async_recv_from}
use cnerium.Net.Dns.{ResolvedAddress, AsioDns, push_all, async_resolve}
use cnerium.Net.Dns

-- How an await ends, and the call that it makes.
abbrev pub ends : {R : Type 0} → Moment → CancelToken → Operation R → Outcome R
ends m ct op = if is_cancelled m.after ct then throws (system_error cancelled_ec) else outcome_of op

abbrev pub called : {C : Type 0} → Moment → CancelToken → C → List C
called m ct call = if is_cancelled m.before ct then [] else call ∷ []

abbrev pub bind_outcome : {R S : Type 0} → Outcome R → (R → Outcome S) → Outcome S
bind_outcome (throws e) k = throws e
bind_outcome (returns r) k = k r

abbrev pub if_returns : {R A : Type 0} → Outcome R → (R → List A) → List A
if_returns (throws e) k = []
if_returns (returns r) k = k r

module _ {G C R S : Type 0} where
  -- What follows an await that ends by an outcome.
  continue_with :
      World G C
      → Outcome R
      → (R → World G C → World G C × Option (Outcome S))
      → World G C × Option (Outcome S)
  continue_with w (throws e) k = (w, some (throws e))
  continue_with w (returns r) k = k r w

  and_then-continue :
      (p : World G C × Option (Outcome R)) (o : Outcome R)
      (k : R → World G C → World G C × Option (Outcome S))
      → p.1 ≡ some o
      → and_then p k ≡ continue_with p.0 o k
  unfolding and_then continue_with
  and_then-continue (w, none) o k e = cc
  and_then-continue (w, some (throws x)) (throws y) k e = cc
  and_then-continue (w, some (throws x)) (returns r) k e = cc
  and_then-continue (w, some (returns r)) (throws y) k e = cc
  and_then-continue (w, some (returns r)) (returns q) k e = cc

module _ {G C R S : Type 0} where
  pure-continue :
      (o : Outcome R) (f : R → S) (w : World G C)
      → (continue_with w o (λ r w'. (w', some (returns (f r))))).1
        ≡ some (bind_outcome o (λ r. returns (f r)))
  unfolding continue_with
  pure-continue (throws e) f w = refl
  pure-continue (returns r) f w = refl

module _ {A : Type 0} where
  push_all-map :
      (asio : AsioDns A) (es : List (A × ℕ)) (out : List ResolvedAddress)
      → push_all asio es out ≡ out ++ map (λ e. record { ip = asio.to_string e.0; port = e.1 }) es
  unfolding push_all
  push_all-map asio [] out = sym (append-nil out)
  push_all-map asio ((a, p) ∷ es) out =
      push_all-map asio es (out ++ record { ip = asio.to_string a; port = p } ∷ [])
      ∙ append_assoc out (record { ip = asio.to_string a; port = p } ∷ []) _

module _ {G E A : Type 0} (asio : AsioTcp E A) where
  abbrev connect_rest :
      Moment
      → CancelToken
      → List E
      → World G (StreamCall E)
      → World G (StreamCall E) × Option (Outcome (Unit {0}))
  connect_rest m ct results w =
      co_asio m ct (connects results) (drop_value (asio.async_connect results)) w

  connect-continue :
      (m : Moment) (ct : CancelToken) (w : World G (StreamCall E)) (before : List (StreamCall E))
      (first : List (StreamCall E)) (o : Outcome (List E))
      → Lasts ct m
      → m.handle == null ≡ false
      → w.calls ≡ before ++ first
      → ((continue_with w o (connect_rest m ct)).1
          ≡ some (bind_outcome o (λ results. ends m ct (drop_value (asio.async_connect results)))))
        × ((continue_with w o (connect_rest m ct)).0.calls
            ≡ before ++ (first ++ if_returns o (λ results. called m ct (connects results))))
  unfolding continue_with
  connect-continue m ct w before first (throws e) l h c =
      (refl, c ∙ ap (λ x. before ++ x) (sym (append-nil first)))
  connect-continue m ct w before first (returns rs) l h c =
      let (result, _, calls) =
        co_asio-outcome_of m ct (connects rs) (drop_value (asio.async_connect rs)) w l h in
      (result, calls ∙ ap (λ x. x ++ called m ct (connects rs)) c ∙ append_assoc before first _)

  -- A stream connects to the endpoints that the resolver has found, and only then: it ends as the
  -- resolution does if that throws, by a cancellation or an error, without a call to connect, and
  -- otherwise as the connection does. If the context is shut down, it throws without a call.
  pub async_connect-ends :
      (net : Outcome ℕ) (m1 m2 : Moment) (ct : CancelToken) (ep : TcpEndpoint)
      (w : World G (StreamCall E))
      → Lasts ct m1
      → Lasts ct m2
      → m1.handle == null ≡ false
      → m2.handle == null ≡ false
      → let found = ends m1 ct (asio.async_resolve ep.host ep.port) in
        ((async_connect asio net m1 m2 ct ep w).1
          ≡ some (
              bind_outcome net (λ u.
                bind_outcome found
                  (λ results. ends m2 ct (drop_value (asio.async_connect results))))))
        × ((async_connect asio net m1 m2 ct ep w).0.calls
            ≡ w.calls
              ++ if_returns net (λ u.
                called m1 ct (resolves ep.host ep.port)
                ++ if_returns found (λ results. called m2 ct (connects results))))
  unfolding async_connect
  async_connect-ends (throws e) m1 m2 ct ep w l1 l2 h1 h2 = (refl, sym (append-nil w.calls))
  async_connect-ends (returns net) m1 m2 ct ep w l1 l2 h1 h2 =
      let op = asio.async_resolve ep.host ep.port in
      let (result, _, calls) = co_asio-outcome_of m1 ct (resolves ep.host ep.port) op w l1 h1 in
      let joined =
        and_then-continue (co_asio m1 ct (resolves ep.host ep.port) op w) (ends m1 ct op)
          (connect_rest m2 ct) result in
      let (r, c) =
        connect-continue m2 ct (co_asio m1 ct (resolves ep.host ep.port) op w).0 w.calls
          (called m1 ct (resolves ep.host ep.port)) (ends m1 ct op) l2 h2 calls in
      (ap (λ p. p.1) joined ∙ r, ap (λ p. p.0.calls) joined ∙ c)

module _ {G C R S : Type 0} where
  -- An await and a function of its value.
  map-ends :
      (m : Moment) (ct : CancelToken) (call : C) (op : Operation R) (f : R → S) (w : World G C)
      → Lasts ct m
      → m.handle == null ≡ false
      → (and_then (co_asio m ct call op w) (λ r w'. (w', some (returns (f r))))).1
        ≡ some (bind_outcome (ends m ct op) (λ r. returns (f r)))
  unfolding continue_with
  map-ends m ct call op f w l h =
      ap (λ p. p.1)
        (and_then-continue (co_asio m ct call op w) (ends m ct op)
          (λ r w'. (w', some (returns (f r)))) (co_asio-outcome_of m ct call op w l h).0)
      ∙ pure-continue (ends m ct op) f (co_asio m ct call op w).0

-- The resolver gives the results of Asio in their order, each by its address as text and its port, or
-- throws what the await throws.
pub async_resolve-map :
    {G A : Type 0} (asio : AsioDns A) (m : Moment) (ct : CancelToken) (host : String) (port : ℕ)
    (w : World G Dns.ResolverCall)
    → Lasts ct m
    → m.handle == null ≡ false
    → (async_resolve asio m ct host port w).1
      ≡ some (
          bind_outcome
            (ends m ct (asio.async_resolve host port))
            (λ es. returns (map (λ e. record { ip = asio.to_string e.0; port = e.1 }) es)))
unfolding async_resolve
async_resolve-map asio m ct host port w l h =
    map-ends m ct (Dns.resolves host port) (asio.async_resolve host port)
      (λ es. push_all asio es []) w l h
    ∙ ap (λ f. some (bind_outcome (ends m ct (asio.async_resolve host port)) f))
        (fun_ext (λ es. ap returns (push_all-map asio es [])))

-- A datagram is received with the number of bytes and the source that Asio gives, and a listener hands
-- out the client it has accepted, if the await of the operation returns, and they throw what it
-- throws; a listener whose client cannot be made throws that.
pub async_recv_from-ends :
    {G E A : Type 0} (tcp : AsioTcp E A) (udp : AsioUdp A) (m : Moment) (ct : CancelToken)
    (size : ℕ) (client : Outcome ℕ) (w : World G (StreamCall E)) (w' : World G (SocketCall A))
    → Lasts ct m
    → m.handle == null ≡ false
    → ((async_recv_from udp m ct size w').1
        ≡ some (
            bind_outcome (ends m ct (udp.async_receive_from size)) (λ r. returns (record {
              from = record { host = udp.to_string r.1.0; port = r.1.1 };
              bytes = r.0;
            }))))
      × ((async_accept tcp client m ct w).1
          ≡ some (
              bind_outcome client
                (λ c. bind_outcome (ends m ct tcp.async_accept) (λ u. returns c))))
unfolding async_recv_from async_accept datagram
async_recv_from-ends tcp udp m ct size (throws e) w w' l h =
    (map-ends m ct (receives size) (udp.async_receive_from size) (datagram udp) w' l h, refl)
async_recv_from-ends tcp udp m ct size (returns client) w w' l h = (
  map-ends m ct (receives size) (udp.async_receive_from size) (datagram udp) w' l h,
  map-ends m ct accepts tcp.async_accept (λ u. client) w l h,
)

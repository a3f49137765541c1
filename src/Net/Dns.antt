-- ===== src/Net/Dns.antt =====
-- include/vix/async/net/dns.hpp and src/net/asio_dns.cpp: the resolver, over that of Asio. The port
-- stands for its decimal text.
use Prim.Native.String.{String}
use cnerium.Prelude.{ℕ, Option, some, List, [], ◌∷◌, ◌++◌}
use cnerium.Error.{Outcome, returns}
use cnerium.Cancel.{CancelToken}
use cnerium.Net.{Operation, World, Moment, co_asio, and_then}

pub record ResolvedAddress : Type 0 where
  pub ip : String
  pub port : ℕ  -- uint16_t

pub data ResolverCall : Type 0 where
  resolves : String → ℕ → ResolverCall

-- The resolver of Asio, whose results are addresses `A` with ports.
pub record AsioDns (A : Type 0) : Type 0 where
  pub async_resolve : String → ℕ → Operation (List (A × ℕ))
  pub to_string : A → String

module _ {A : Type 0} (asio : AsioDns A) where
  -- The loop over the results, with `out`.
  unfoldable pub push_all : List (A × ℕ) → List ResolvedAddress → List ResolvedAddress
  push_all [] out = out
  push_all ((a, p) ∷ es) out = push_all es (out ++ record { ip = asio.to_string a; port = p } ∷ [])

module _ {G A : Type 0} (asio : AsioDns A) where
  unfoldable pub async_resolve :
      Moment
      → CancelToken
      → String
      → ℕ
      → World G ResolverCall
      → World G ResolverCall × Option (Outcome (List ResolvedAddress))
  unfolding co_asio and_then push_all
  async_resolve m ct host port w =
      and_then (co_asio m ct (resolves host port) (asio.async_resolve host port) w)
        (λ results w'. (w', some (returns (push_all asio results []))))

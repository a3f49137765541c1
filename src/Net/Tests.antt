-- ===== src/Net/Tests.antt =====
-- Runs of the operations of src/net, and their theorems at concrete inputs.
use cnerium.Prelude.{
  List, Bool, ◌||◌, ◌&&◌, not, ◌==◌, ℕ, ◌≡◌, refl, true, false, some, [], ◌∷◌, ◌++◌, if◌then◌else◌,
}
use cnerium.Error.{ErrorCode, foreign, is_error, system_error, returns, throws}
use cnerium.Cancel.{CancelToken, load, no_token, is_cancelled, cancelled_ec}
use cnerium.Scheduler
use cnerium.Net.{
  Operation, completes, World, Moment, co_asio, await_suspend, await_resume, resume_on_ctx,
  complete, empty_result, and_then, checked,
}
use cnerium.Net.Await.{outcome_of, co_asio-outcome_of}
use cnerium.Net.Tcp.{
  TcpEndpoint, StreamCall, reads, resolves, connects, opens, reuses, binds, AsioTcp, drop_value,
  async_connect, async_listen, listen_at,
}
use cnerium.Net.Udp.{UdpEndpoint, AsioUdp, async_bind}
use cnerium.Net.Setup.{listen_steps, bind_steps, run_steps, async_listen-run_steps}
use cnerium.Net.Service
use cnerium.Net.Service.Joined.{exec-join_returns}
use cnerium.Net.Flow.{ends, called, bind_outcome, if_returns, async_connect-ends}

abbrev ok : ErrorCode
ok = record { value = 0; category = foreign 0 }

abbrev in_use : ErrorCode
in_use = record { value = 98; category = foreign 0 }

-- Two endpoints are found, the second connects; the port that a listener binds is in use.
abbrev tcp : AsioTcp ℕ ℕ
tcp = record {
  async_resolve = λ host port. completes ok (1 ∷ 2 ∷ []);
  async_connect = λ results. completes ok 2;
  async_read_some = λ size. completes ok size;
  async_write = λ buf. completes ok 3;
  async_accept = completes ok tt;
  make_address = λ host. returns 127;
  open_ = λ a. ok;
  set_reuse_address = ok;
  bind = λ a port. in_use;
  listen = λ backlog. ok;
  close = in_use;
  is_open = λ calls. false;
  native_handle = λ calls. returns 3;
  is_listening = λ calls. false;
}

abbrev udp : AsioUdp ℕ
udp = record {
  make_address = λ host. returns 127;
  to_string = λ a. "127.0.0.1";
  open_ = λ a. ok;
  bind = λ a port. ok;
  async_send_to = λ buf a port. completes ok 3;
  async_receive_from = λ size. completes ok (5, (127, 53));
  close = in_use;
  is_open = λ calls. true;
}

abbrev quiet : {C : Type 0} → World ℕ C
quiet = record {
  sched = record { handle_q = []; fn_q = []; stop_requested = false; running = true };
  calls = [];
}

abbrev now : Moment
now = record { before = []; after = []; handle = 4 }

abbrev later : Moment
later = record { before = []; after = true ∷ []; handle = 4 }

abbrev there : TcpEndpoint
there = record { host = "localhost"; port = 80 }

abbrev here : UdpEndpoint
here = record { host = "127.0.0.1"; port = 53 }

abbrev watched : CancelToken
watched = record { st = some 0 }

connected :
    (async_connect tcp (returns 0) now now no_token there quiet).0.calls
    ≡ resolves "localhost" 80 ∷ connects (1 ∷ 2 ∷ []) ∷ []
unfolding async_connect co_asio await_suspend await_resume resume_on_ctx complete empty_result
    and_then drop_value is_cancelled no_token is_error Scheduler.post_handle Scheduler.post
connected = refl

-- Cancelled while it resolves, a connect does not go on.
given_up :
    (async_connect tcp (returns 0) later later watched there quiet).0.calls
    ≡ resolves "localhost" 80 ∷ []
unfolding async_connect co_asio await_suspend await_resume resume_on_ctx complete empty_result
    and_then drop_value is_cancelled load no_token is_error Scheduler.post_handle Scheduler.post
given_up = refl

port_in_use :
    async_listen tcp there 128
    ≡ (opens 127 ∷ reuses ∷ binds 127 80 ∷ [], throws (system_error in_use))
unfolding async_listen listen_at checked is_error
port_in_use = refl

abbrev read_nine : StreamCall ℕ
read_nine = reads 9

abbrev nine : Operation ℕ
nine = completes ok 9

co_asio-outcome_of_example :
    ((co_asio later watched read_nine nine (quiet)).1
      ≡ some (
          if is_cancelled (true ∷ []) watched
          then throws (system_error cancelled_ec)
          else outcome_of nine))
    × ((co_asio later watched read_nine nine quiet).0.sched.handle_q ≡ 4 ∷ [])
    × ((co_asio later watched read_nine nine quiet).0.calls
        ≡ (if is_cancelled [] watched then [] else read_nine ∷ []))
unfolding is_cancelled load
co_asio-outcome_of_example = co_asio-outcome_of later watched read_nine nine quiet (λ h. refl) refl

async_listen-run_steps_example :
    (async_listen tcp there 128 ≡ run_steps (λ a. listen_steps tcp a 80 128) (returns 127))
    × (async_bind udp here ≡ run_steps (λ a. bind_steps udp a 53) (returns 127))
async_listen-run_steps_example = async_listen-run_steps tcp udp there here 128

async_connect-ends_example :
    let found = ends now no_token (tcp.async_resolve "localhost" 80) in
    ((async_connect tcp (returns 0) now now no_token there quiet).1
      ≡ some (
          bind_outcome (returns 0) (λ (u : ℕ).
            bind_outcome found
              (λ results. ends now no_token (drop_value (tcp.async_connect results))))))
    × ((async_connect tcp (returns 0) now now no_token there quiet).0.calls
        ≡ if_returns (returns 0) (λ (u : ℕ).
          called now no_token (resolves "localhost" 80)
          ++ if_returns found (λ results. called now no_token (connects results))))
async_connect-ends_example =
    async_connect-ends tcp (returns 0) now now no_token there quiet (λ h. h) (λ h. h) refl refl

-- A loop that runs while it has a guard or work, and is not stopped.
abbrev run_returns : Bool → Bool → ℕ → Bool
run_returns halted guard n = halted || (not guard && (n == 0))

-- An operation is outstanding when an exception leaves the loop: the thread ends, the guard stays.
abbrev loop_throws : List Service.Event
loop_throws = Service.starts ∷ Service.moves ∷ Service.throws ∷ []

exec-join_returns_example :
    let s = Service.exec run_returns Service.init loop_throws in
    (Service.join_returns false (Service.step run_returns s Service.moves).net_thread ≡ true)
    × (s.guard ≡ true)
    × (s.stopped ≡ false)
exec-join_returns_example = exec-join_returns run_returns (λ n. refl) (λ g n. refl) loop_throws

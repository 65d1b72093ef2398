-- ===== src/Running/Wrap.antt =====
-- `WrapTcpStream` and `WrapUdpSocket` of src/rabbit_digger/running.rs: streams and sockets that
-- report their traffic to the connection manager.
use rabbit_digger.Address.{Address, domain, SocketAddr, socket_addr}
use rabbit_digger.Base.{
  Bytes, ℕ, ◌-◌, List, [], ◌++◌, Bool, if◌then◌else◌, length, MayPanic, panics, returns,
}
pub use rabbit_digger.Base.Io.{IoError, aborted_by_user, other, Poll, pending, done, failed}
use rabbit_digger.ConnectionManager.{EventType}
use rabbit_digger.ConnectionManager.Connection.{ConnType, count_in, count_out, poll, Polled}

-- What a call returns, the buffer it filled, the connection after it, and the batches it sent.
pub record Called (V A : Type 0) : Type 0 where
  pub result : MayPanic (Poll A)
  pub filled : Bytes
  pub conn : ConnType
  pub batches : List (List (EventType V))

-- A TCP connection counts with no address.
abbrev pub no_address : Address
no_address = domain [] 0

module _ {V : Type 0} where
  -- `conn.poll(cx)?`: the rest of a call is reached if the connection is not stopped. The poll panics
  -- if an earlier one has found it stopped.
  unfoldable pub unless_aborted :
      {A : Type 0}
      → Polled V
      → Bytes
      → (ConnType → List (List (EventType V)) → Called V A)
      → Called V A
  unless_aborted p buf rest = elim p.aborted [
    | panics ↦ record { result = panics; filled = buf; conn = p.conn; batches = p.batches }
    | returns aborted ↦
        if aborted
        then record {
          result = returns (failed aborted_by_user);
          filled = buf;
          conn = p.conn;
          batches = p.batches;
        }
        else rest p.conn p.batches
  ]

  -- `WrapTcpStream::poll_read`, where an earlier call has `seen` the stop or not, and the inner stream
  -- has the given answer: the bytes that it appends to the buffer.
  unfoldable pub poll_read : Bool → Bool → Bool → Poll Bytes → Bytes → ConnType → Called V Unit
  poll_read seen heartbeat stopped inner buf c =
      let before = length buf in
      unless_aborted (poll seen heartbeat stopped c) buf (λ conn batches. elim inner [
        | done bytes ↦ record {
          result = returns (done tt);
          filled = buf ++ bytes;
          conn = count_in conn no_address (length (buf ++ bytes) - before);
          batches = batches;
        }
        | pending ↦ record {
          result = returns pending;
          filled = buf;
          conn = conn;
          batches = batches;
        }
        | failed e ↦ record {
          result = returns (failed e);
          filled = buf;
          conn = conn;
          batches = batches;
        }
      ])

  -- `WrapTcpStream::poll_write`: it does not look at the stop channel.
  unfoldable pub poll_write : Poll ℕ → ConnType → Called V ℕ
  poll_write (done s) c = record {
    result = returns (done s);
    filled = [];
    conn = count_out c no_address s;
    batches = [];
  }
  poll_write pending c = record { result = returns pending; filled = []; conn = c; batches = [] }
  poll_write (failed e) c = record {
    result = returns (failed e);
    filled = [];
    conn = c;
    batches = [];
  }

  -- `WrapUdpSocket::poll_recv_from`: the whole buffer is counted.
  unfoldable pub poll_recv_from :
      Bool → Bool → Bool → Poll (SocketAddr × Bytes) → Bytes → ConnType → Called V SocketAddr
  poll_recv_from seen heartbeat stopped inner buf c =
      unless_aborted (poll seen heartbeat stopped c) buf (λ conn batches. elim inner [
        | done (addr, bytes) ↦ record {
          result = returns (done addr);
          filled = buf ++ bytes;
          conn = count_in conn (socket_addr addr) (length (buf ++ bytes));
          batches = batches;
        }
        | pending ↦ record {
          result = returns pending;
          filled = buf;
          conn = conn;
          batches = batches;
        }
        | failed e ↦ record {
          result = returns (failed e);
          filled = buf;
          conn = conn;
          batches = batches;
        }
      ])

  -- `WrapUdpSocket::poll_send_to`: the length of the packet is counted, whatever was sent of it.
  unfoldable pub poll_send_to : Poll ℕ → Bytes → Address → ConnType → Called V ℕ
  poll_send_to (done r) buf target c = record {
    result = returns (done r);
    filled = [];
    conn = count_out c target (length buf);
    batches = [];
  }
  poll_send_to pending buf target c = record {
    result = returns pending;
    filled = [];
    conn = c;
    batches = [];
  }
  poll_send_to (failed e) buf target c = record {
    result = returns (failed e);
    filled = [];
    conn = c;
    batches = [];
  }

-- ===== src/Server/Conn/Total.antt =====
-- The handlers of commands end on any message and leave the connection's input and streams.
pub mod Commands
pub mod Registry
pub mod Grown
pub mod Handled
pub mod Dispatch
pub mod Publish
pub mod Leaving
pub mod Serve
pub mod Play
use fastlive.Base.{
  ℕ, suc, ◌≡◌, refl, subst, arith, if◌then◌else◌, List, [], ◌∷◌, length, All, ltb, ◌==◌, ◌||◌, ◌&&◌,
  Bool, Outcome, ok, err, Key, codes, same_key,
}
use fastlive.Base.{
  Ends, Finishes, returns, errs, breaks, Finishes-then, Finishes-if, ◌>>=◌, true, false, not,
}
use fastlive.Chunk.{
  Chunk, Stream, msg_set_chunk_size, msg_set_peer_bandwidth, msg_window_acknowledgement_size,
}
use fastlive.Chunk.Message.{
  new_procotol_control_message, new_user_control_message, new_command_message, is_control_type,
}
use fastlive.Connection.{Connection, M, flush}
use fastlive.Connection.Send.{send_integral_message}
use fastlive.Connection.Steps.{Ensures, gives, fails, panics, Ensures-if_at}
use fastlive.Connection.Send.Keeps.{
  Keeps, Keeps-refl, Keeps-trans, Leaves, Leaves-then, lift-Leaves, send_integral_message-Leaves,
  flush-Leaves,
}
use fastlive.Server.Amf.{Amf, Value, null, boolean, number, int, text, object, other}
use fastlive.Server.Client.{OnMetaData, read_connect_object}
use fastlive.Server.Conn.{
  ServerConn, owned, not_nil, send_messages, flush_all, respond, dynamic, reply, connect_messages,
  play_messages, resp_connect_command_message, resp_create_stream_command_message,
  resp_publish_command_message, resp_play_command_message,
}
use fastlive.Server.Conn.Commands.{
  read_connect, read_transaction_id, read_names, name_stream, handle_connect_command_message,
  handle_create_stream_command_message, handle_publish_command_message, handle_play_command_message,
  run_command, run_decoded, handle_command_message, skip_amf3, read_data, handle_data_message,
  is_empty, with_transaction_id, with_client_type,
}

not_nil-Ends : {o : Outcome Chunk} → Ends o → Ends (not_nil o)
unfolding not_nil
not_nil-Ends (returns _) = returns tt
not_nil-Ends errs = breaks
not_nil-Ends breaks = breaks

send_messages-Leaves :
    (mades : List (Outcome Chunk)) (total : ℕ) (c : Connection)
    → All Ends mades
    → Leaves c (send_messages mades total c)
unfolding send_messages
send_messages-Leaves [] total c h = gives (Keeps-refl c)
send_messages-Leaves (made ∷ mades) total c h =
    Leaves-then (lift-Leaves c (not_nil-Ends h.0)) (λ msg c₁.
      Leaves-then (send_integral_message-Leaves msg c₁)
        (λ nw c₂. send_messages-Leaves mades _ c₂ h.1))

respond-Leaves :
    (mades : List (Outcome Chunk)) (c : Connection) → All Ends mades → Leaves c (respond mades c)
unfolding respond flush_all
respond-Leaves mades c h = Leaves-then (send_messages-Leaves mades 0 c h) (λ total c₁.
    Leaves-then (flush-Leaves c₁)
      (λ nf c₂. Ensures-if_at (nf == total) _ _ c₂ (λ _. gives (Keeps-refl c₂)) (λ _. fails)))

control-Ends : (type_id size value : ℕ) → Ends (new_procotol_control_message type_id size value)
unfolding new_procotol_control_message
control-Ends type_id size value =
    Finishes-if (ltb size 4) (λ _. errs)
      (λ _. Finishes-if (not (is_control_type type_id)) (λ _. errs) (λ _. returns tt))

user_control-Ends : (event_type size : ℕ) → Ends (new_user_control_message event_type size)
unfolding new_user_control_message
user_control-Ends event_type size = Finishes-if (ltb size 6) (λ _. errs) (λ _. returns tt)

dynamic-Ends : {o : Outcome Chunk} → Ends o → Ends (dynamic o)
dynamic-Ends (returns _) = returns tt
dynamic-Ends errs = breaks
dynamic-Ends breaks = breaks

command-Ends :
    (csid sid : ℕ) {o : Outcome (List ℕ)} → Ends o → Ends (new_command_message csid sid o)
unfolding new_command_message
command-Ends csid sid (returns _) = returns tt
command-Ends csid sid errs = errs
command-Ends csid sid breaks = breaks

owned-Finishes :
    {A : Type 0} (sc : ServerConn) {o : Outcome (A × Connection)}
    → Leaves sc.connection o
    → Finishes (λ r. Keeps sc.connection r.1.connection) (owned sc o)
owned-Finishes sc (gives k) = returns k
owned-Finishes sc fails = errs
owned-Finishes sc (panics x) = breaks

-- The handlers' result.
abbrev pub KeepsConn : ServerConn → ServerConn → Type 0
KeepsConn sc sc' = Keeps sc.connection sc'.connection

read_connect-KeepsConn :
    (int_of : ℕ → ℕ) (vs : List Value) (sc : ServerConn)
    → Finishes (KeepsConn sc) (read_connect int_of vs sc)
unfolding read_connect
read_connect-KeepsConn int_of [] sc = returns (Keeps-refl _)
read_connect-KeepsConn int_of (number x ∷ vs) sc =
    Finishes-if (int_of x == 1)
      (λ _. onward (read_connect-KeepsConn int_of vs (with_transaction_id (int_of x) sc)))
      (λ _. errs)
  where
    onward :
        {o : Outcome ServerConn}
        → Finishes (KeepsConn (with_transaction_id (int_of x) sc)) o
        → Finishes (KeepsConn sc) o
    onward (returns k) =
        returns (record { same_input = k.same_input; same_streams = k.same_streams })
    onward errs = errs
    onward breaks = breaks
read_connect-KeepsConn int_of (object v ∷ vs) sc =
    read_connect-KeepsConn int_of vs
      (record sc { connect_info = read_connect_object int_of v sc.connect_info })
read_connect-KeepsConn int_of (null ∷ vs) sc = read_connect-KeepsConn int_of vs sc
read_connect-KeepsConn int_of (boolean b ∷ vs) sc = read_connect-KeepsConn int_of vs sc
read_connect-KeepsConn int_of (int n ∷ vs) sc = read_connect-KeepsConn int_of vs sc
read_connect-KeepsConn int_of (text k ∷ vs) sc = read_connect-KeepsConn int_of vs sc
read_connect-KeepsConn int_of (other ∷ vs) sc = read_connect-KeepsConn int_of vs sc

-- Setting the transaction id first makes no difference.
with_transaction_id-KeepsConn :
    (t : ℕ) (sc sc' : ServerConn) → KeepsConn (with_transaction_id t sc) sc' → KeepsConn sc sc'
with_transaction_id-KeepsConn t sc sc' k = record {
  same_input = k.same_input;
  same_streams = k.same_streams;
}

read_transaction_id-KeepsConn :
    (int_of : ℕ → ℕ) (vs : List Value) (sc : ServerConn)
    → KeepsConn sc (read_transaction_id int_of vs sc)
unfolding read_transaction_id
read_transaction_id-KeepsConn int_of [] sc = Keeps-refl _
read_transaction_id-KeepsConn int_of (number x ∷ vs) sc =
    with_transaction_id-KeepsConn (int_of x) sc
      (read_transaction_id int_of vs (with_transaction_id (int_of x) sc))
      (read_transaction_id-KeepsConn int_of vs (with_transaction_id (int_of x) sc))
read_transaction_id-KeepsConn int_of (object v ∷ vs) sc = read_transaction_id-KeepsConn int_of vs sc
read_transaction_id-KeepsConn int_of (null ∷ vs) sc = read_transaction_id-KeepsConn int_of vs sc
read_transaction_id-KeepsConn int_of (boolean b ∷ vs) sc =
    read_transaction_id-KeepsConn int_of vs sc
read_transaction_id-KeepsConn int_of (int n ∷ vs) sc = read_transaction_id-KeepsConn int_of vs sc
read_transaction_id-KeepsConn int_of (text k ∷ vs) sc = read_transaction_id-KeepsConn int_of vs sc
read_transaction_id-KeepsConn int_of (other ∷ vs) sc = read_transaction_id-KeepsConn int_of vs sc

name_stream-connection :
    (k : ℕ) (v : Key) (sc : ServerConn) → (name_stream k v sc).connection ≡ sc.connection
unfolding name_stream
name_stream-connection k v sc = ground arith

read_names-KeepsConn :
    (int_of : ℕ → ℕ) (k : ℕ) (vs : List Value) (sc : ServerConn)
    → KeepsConn sc (read_names int_of k vs sc)
unfolding read_names
read_names-KeepsConn int_of k [] sc = Keeps-refl _
read_names-KeepsConn int_of k (text v ∷ vs) sc =
    subst (λ c. Keeps c (read_names int_of (suc k) vs (name_stream k v sc)).connection)
      (name_stream-connection k v sc) (read_names-KeepsConn int_of (suc k) vs (name_stream k v sc))
read_names-KeepsConn int_of k (number x ∷ vs) sc =
    with_transaction_id-KeepsConn (int_of x) sc
      (read_names int_of (suc k) vs (with_transaction_id (int_of x) sc))
      (read_names-KeepsConn int_of (suc k) vs (with_transaction_id (int_of x) sc))
read_names-KeepsConn int_of k (object v ∷ vs) sc = read_names-KeepsConn int_of (suc k) vs sc
read_names-KeepsConn int_of k (null ∷ vs) sc = read_names-KeepsConn int_of (suc k) vs sc
read_names-KeepsConn int_of k (boolean b ∷ vs) sc = read_names-KeepsConn int_of (suc k) vs sc
read_names-KeepsConn int_of k (int n ∷ vs) sc = read_names-KeepsConn int_of (suc k) vs sc
read_names-KeepsConn int_of k (other ∷ vs) sc = read_names-KeepsConn int_of (suc k) vs sc

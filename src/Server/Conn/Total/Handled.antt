-- ===== src/Server/Conn/Total/Handled.antt =====
-- What the handlers of onRecvIntegralMessage leave of the connection and the broker.
use fastlive.Base.{
  ℕ, ◌≡◌, refl, ◌==◌, ◌||◌, inl, inr, Option, none, some, Option-cases, get_elem?, not,
  if◌then◌else◌,
}
use fastlive.Base.{
  ok, err, panic, not_publisher, Finishes, returns, errs, breaks, Finishes-then, Finishes-if, ◌>>=◌,
}
use fastlive.Chunk.{
  Stream, msg_set_chunk_size, msg_acknowledgement, msg_window_acknowledgement_size,
  msg_audio_message, msg_video_message, msg_amf0_command_message, msg_amf3_command_message,
  msg_amf0_data_message, msg_amf3_data_message,
}
use fastlive.Connection.Handlers.{
  handle_set_chunk_size_message, handle_acknowledgement_message,
  handle_window_acknowledgement_size_message,
}
use fastlive.Connection.Send.Keeps.{Keeps-refl}
use fastlive.Server.Amf.{Amf}
use fastlive.Server.Player.{Progress, done, blocked}
use fastlive.Server.Session.{Session, on_recv_av_message, on_recv_data_message}
use fastlive.Server.Session.Ends.{
  SameWatch, Done, on_recv_av_message-SameWatch, on_recv_data_message-SameWatch,
}
use fastlive.Server.Broker.{Broker}
use fastlive.Server.Conn.{ServerConn}
use fastlive.Server.Conn.Commands.{handle_data_message}
use fastlive.Server.Conn.Dispatch.{
  Handled, keep_session, with_meta, handle_av_message, handle_session_data, handle_message,
}
use fastlive.Server.Conn.Total.{KeepsConn}
use fastlive.Server.Conn.Total.Commands.{
  IsRegular, handle_command_message-length, handle_data_message-length,
}
use fastlive.Server.Conn.Total.Registry.{
  SameRegistry, SameRegistry-refl, write_session-SameRegistry,
}

-- What handling `msg` leaves: a message of that length, the input and the streams, the registry.
pub record Leaving (msg : Stream) (sc : ServerConn) (b : Broker) (h : Handled) : Type 0 where
  pub same_length : h.0.message_length ≡ msg.message_length
  pub keeps : KeepsConn sc h.1
  pub registry : SameRegistry b h.2

unmoved : (msg : Stream) (sc : ServerConn) (b : Broker) → Leaving msg sc b (msg, sc, b)
unmoved msg sc b = record {
  same_length = refl;
  keeps = Keeps-refl _;
  registry = SameRegistry-refl b;
}

keep_session-Leaving :
    (a : ℕ) (msg msg' : Stream) (sc sc' : ServerConn) (b : Broker) (s : Session)
    (r : Progress Session)
    → msg'.message_length ≡ msg.message_length
    → KeepsConn sc sc'
    → get_elem? b.sessions a ≡ some s
    → Done (SameWatch s) r
    → Done (Leaving msg sc b) (keep_session a msg' sc' b r)
keep_session-Leaving a msg msg' sc sc' b s (done s') e k here w = record {
  same_length = e;
  keeps = k;
  registry = write_session-SameRegistry a s s' b here w;
}
keep_session-Leaving a msg msg' sc sc' b s blocked e k here w = tt

handle_av_message-Leaving :
    (msg : Stream) (type_id : ℕ) (sc : ServerConn) (b : Broker)
    → Finishes (Done (Leaving msg sc b)) (handle_av_message msg type_id sc b)
unfolding handle_av_message
handle_av_message-Leaving msg type_id sc b = by_session sc.sess
  where
    by_session :
        (sess : Option ℕ)
        → Finishes (Done (Leaving msg sc b)) (elim sess [
          | none ↦
              if not (sc.play_info.client_type == 1)
              then err not_publisher
              else ok (done (msg, sc, b))
          | some a ↦ elim (get_elem? b.sessions a) [
            | none ↦ panic
            | some s ↦ (do r ← on_recv_av_message msg type_id s; ok (keep_session a msg sc b r))
          ]
        ])
    by_session none =
        Finishes-if (not (sc.play_info.client_type == 1)) (λ _. errs)
          (λ _. returns (unmoved msg sc b))
    by_session (some a) = elim (Option-cases (get_elem? b.sessions a)) [
      | inl out ↦ rw out breaks
      | inr (s, here) ↦ rw here (
          Finishes-then (on_recv_av_message-SameWatch msg type_id s) (λ r w.
            returns (keep_session-Leaving a msg msg sc sc b s r refl (Keeps-refl _) here w)))
    ]

handle_session_data-Leaving :
    (amf : Amf) (msg : Stream) (type_id : ℕ) (sc : ServerConn) (b : Broker)
    → IsRegular amf
    → Finishes (Done (Leaving msg sc b)) (handle_session_data amf msg type_id sc b)
unfolding handle_session_data
handle_session_data-Leaving amf msg type_id sc b regular = by_session sc.sess
  where
    by_publisher :
        (a : ℕ) (s : Session) (publisher : Option ℕ)
        → get_elem? b.sessions a ≡ some s
        → Finishes (Done (Leaving msg sc b)) (elim publisher [
          | none ↦ ok (done (msg, sc, b))
          | some _ ↦ (do
            (msg, m) ← handle_data_message amf msg type_id sc.meta
            r ← on_recv_data_message (ok msg) s
            ok (keep_session a msg (with_meta sc m) b r))
        ])
    by_publisher a s none here = returns (unmoved msg sc b)
    by_publisher a s (some n) here =
        Finishes-then (handle_data_message-length amf msg type_id sc.meta regular) (λ (msg', m) e.
          Finishes-then (on_recv_data_message-SameWatch msg' s) (λ r w.
            returns
              (keep_session-Leaving a msg msg' sc (with_meta sc m) b s r e (Keeps-refl _) here w)))

    by_session :
        (sess : Option ℕ)
        → Finishes (Done (Leaving msg sc b)) (elim sess [
          | none ↦ ok (done (msg, sc, b))
          | some a ↦ elim (get_elem? b.sessions a) [
            | none ↦ panic
            | some s ↦ elim s.publisher [
              | none ↦ ok (done (msg, sc, b))
              | some _ ↦ (do
                (msg, m) ← handle_data_message amf msg type_id sc.meta
                r ← on_recv_data_message (ok msg) s
                ok (keep_session a msg (with_meta sc m) b r))
            ]
          ]
        ])
    by_session none = returns (unmoved msg sc b)
    by_session (some a) = elim (Option-cases (get_elem? b.sessions a)) [
      | inl out ↦ rw out breaks
      | inr (s, here) ↦ rw here (by_publisher a s s.publisher here)
    ]

pub handle_message-Leaving :
    (amf : Amf) (msg : Stream) (sc : ServerConn) (b : Broker)
    → IsRegular amf
    → Finishes (Done (Leaving msg sc b)) (handle_message amf msg sc b)
unfolding handle_message handle_set_chunk_size_message handle_acknowledgement_message
    handle_window_acknowledgement_size_message
handle_message-Leaving amf msg sc b regular =
    Finishes-if (t == msg_set_chunk_size)
      (λ _. returns (record {
        same_length = refl;
        keeps = record { same_input = refl; same_streams = refl };
        registry = SameRegistry-refl b;
      }))
      (λ _.
        Finishes-if (t == msg_acknowledgement) (λ _. returns (unmoved msg sc b))
          (λ _.
            Finishes-if (t == msg_window_acknowledgement_size) (λ _. returns (unmoved msg sc b))
              (λ _.
                Finishes-if (t == msg_audio_message || t == msg_video_message)
                  (λ _. handle_av_message-Leaving msg t sc b)
                  (λ _.
                    Finishes-if (t == msg_amf0_command_message || t == msg_amf3_command_message)
                      (λ _.
                        Finishes-then (handle_command_message-length amf msg t sc regular)
                          (λ (msg', sc') h. returns (record {
                            same_length = h.0;
                            keeps = h.1;
                            registry = SameRegistry-refl b;
                          })))
                      (λ _.
                        Finishes-if (t == msg_amf0_data_message || t == msg_amf3_data_message)
                          (λ _. handle_session_data-Leaving amf msg t sc b regular)
                          (λ _. returns (unmoved msg sc b)))))))
  where
    t : ℕ
    t = msg.message_type_id

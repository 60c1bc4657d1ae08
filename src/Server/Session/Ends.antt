-- ===== src/Server/Session/Ends.antt =====
-- The session's handlers always end, and what they leave of the session.
use fastlive.Base.{
  ℕ, ◌/◌, ◌%◌, ◌^◌, ◌≡◌, refl, List, [], ◌∷◌, length, ltb, leb, ◌==◌, ◌&&◌, ◌||◌, Bool, Key,
  get_elem?, some, none, Option,
}
use fastlive.Base.{
  Ends, Finishes, returns, errs, breaks, Finishes-then, Finishes-if, ◌>>=◌, ok, panic, true, false,
  Option-cases, inl, inr, if◌then◌else◌,
}
use fastlive.Chunk.{Stream}
use fastlive.Av.{
  Packet, MediaTag, index, decode_header, decode_media_tag_header, decode_video_header,
  decode_audio_header, decode_avc, audio_type, video_type, meta_data, is_sequence_header,
}
use fastlive.Server.Player.{Player, Progress, done, blocked, buff_packets, close_packet_buffer}
use fastlive.Server.Session.{
  Session, fan_out, keep_header, on_recv_av_message, on_recv_data_message, av_packet, media_type,
  close_players, with_players,
}

buff_packets-Ends : (packet : Packet) (p : Player) → Ends (buff_packets packet p)
unfolding buff_packets
buff_packets-Ends packet p =
    Finishes-if (p.buffer_closed == 1) (λ _. returns tt)
      (λ _.
        Finishes-if p.channel_closed (λ _. breaks)
          (λ _.
            Finishes-if (leb p.packet_buf_size (length p.packet_buffer)) (λ _. returns tt)
              (λ _. returns tt)))

pub close_packet_buffer-Ends : (p : Player) → Ends (close_packet_buffer p)
unfolding close_packet_buffer
close_packet_buffer-Ends p =
    Finishes-if (p.buffer_closed == 1) (λ _. returns tt)
      (λ _. Finishes-if p.channel_closed (λ _. breaks) (λ _. returns tt))

index-Ends : (b : List ℕ) (i : ℕ) → Ends (index b i)
unfolding index
index-Ends b i = elim (Option-cases (get_elem? b i)) [
  | inl out ↦ rw (index, out) breaks
  | inr (x, found) ↦ rw (index, found) (returns tt)
]

decode_video_header-Ends : (t : MediaTag) (b : List ℕ) → Ends (decode_video_header t b)
unfolding decode_video_header decode_avc
decode_video_header-Ends t b =
    Finishes-if (ltb (length b) 5) (λ _. errs)
      (λ _. Finishes-then (index-Ends b 0) (λ flags _.
        Finishes-if (flags % 16 == 7 && (flags / 2 ^ 4 % 2 ^ 8 == 1 || flags / 2 ^ 4 % 2 ^ 8 == 2))
          (λ _. Finishes-then (index-Ends b 1) (λ _ _. returns tt)) (λ _. returns tt)))

decode_audio_header-Ends : (t : MediaTag) (b : List ℕ) → Ends (decode_audio_header t b)
unfolding decode_audio_header
decode_audio_header-Ends t b =
    Finishes-if (ltb (length b) 1) (λ _. errs)
      (λ _. Finishes-then (index-Ends b 0) (λ flags _.
        Finishes-if (flags / 2 ^ 4 == 10) (λ _. Finishes-then (index-Ends b 1) (λ _ _. returns tt))
          (λ _. returns tt)))

decode_header-Ends : (p : Packet) → Ends (decode_header p)
unfolding decode_header decode_media_tag_header
decode_header-Ends p =
    Finishes-then
      (Finishes-if (p.packet_type == video_type) (λ _. decode_video_header-Ends _ p.bytes)
        (λ _. decode_audio_header-Ends _ p.bytes))
      (λ _ _. returns tt)

-- What a packet leaves of a session: its publisher, its watcher and its tokens.
pub record SameWatch (s s' : Session) : Type 0 where
  pub same_publisher : s'.publisher ≡ s.publisher
  pub same_offline : s'.offline ≡ s.offline
  pub same_watch : s'.watch ≡ s.watch
  pub same_key : s'.stream_key ≡ s.stream_key

pub SameWatch-refl : (s : Session) → SameWatch s s
SameWatch-refl s = record {
  same_publisher = refl;
  same_offline = refl;
  same_watch = refl;
  same_key = refl;
}

keep_header-SameWatch :
    (packet : Packet) (s : Session) → Finishes (SameWatch s) (keep_header packet s)
unfolding keep_header
keep_header-SameWatch packet s =
    Finishes-if (packet.packet_type == audio_type) (λ _. audio packet.packet_header)
      (λ _.
        Finishes-if (packet.packet_type == video_type) (λ _. video packet.packet_header)
          (λ _. returns (SameWatch-refl s)))
  where
    kept_audio :
        (b : Bool) → SameWatch s (if b then record s { audio_seq_header = some packet } else s)
    kept_audio true = record {
      same_publisher = refl;
      same_offline = refl;
      same_watch = refl;
      same_key = refl;
    }
    kept_audio false = SameWatch-refl s

    kept_video :
        (b : Bool) → SameWatch s (if b then record s { video_seq_header = some packet } else s)
    kept_video true = record {
      same_publisher = refl;
      same_offline = refl;
      same_watch = refl;
      same_key = refl;
    }
    kept_video false = SameWatch-refl s

    audio :
        (tag : Option MediaTag)
        → Finishes (SameWatch s) (elim tag [
          | some tag ↦ ok (
              if tag.sound_format == 10 && tag.aac_packet_type == 0
              then record s { audio_seq_header = some packet }
              else s)
          | none ↦ ok s
        ])
    audio (some tag) = returns (kept_audio (tag.sound_format == 10 && tag.aac_packet_type == 0))
    audio none = returns (SameWatch-refl s)

    video :
        (tag : Option MediaTag)
        → Finishes (SameWatch s) (elim tag [
          | some tag ↦
              ok (if is_sequence_header tag then record s { video_seq_header = some packet } else s)
          | none ↦ panic
        ])
    video (some tag) = returns (kept_video (is_sequence_header tag))
    video none = breaks

fan_out-Ends : (packet : Packet) (players : List (Key × Player)) → Ends (fan_out packet players)
unfolding fan_out
fan_out-Ends packet [] = returns tt
fan_out-Ends packet ((k, p) ∷ players) =
    Finishes-then (buff_packets-Ends packet p) (λ r _. next r (fan_out-Ends packet players))
  where
    next :
        (r : Progress Player)
        → Ends (fan_out packet players)
        → Ends (elim r [
          | blocked ↦ ok blocked
          | done p ↦
              (fan_out packet players >>= (λ rest.
                ok (elim rest [ blocked ↦ blocked | done players ↦ done ((k, p) ∷ players) ])))
        ])
    next blocked rest = returns tt
    next (done p) rest = Finishes-then rest (λ _ _. returns tt)

-- `P` holds of what is done, if it is not blocked.
abbrev pub Done : {A : Type 0} → (A → Type 0) → Progress A → Type 0
Done P (done a) = P a
Done P blocked = Unit {0}

with_players-SameWatch :
    (s s' : Session) (r : Progress (List (Key × Player)))
    → SameWatch s s'
    → Done (SameWatch s) (with_players s' r)
with_players-SameWatch s s' (done players) h = record {
  same_publisher = h.same_publisher;
  same_offline = h.same_offline;
  same_watch = h.same_watch;
  same_key = h.same_key;
}
with_players-SameWatch s s' blocked h = tt

-- An audio or video message.
pub on_recv_av_message-SameWatch :
    (msg : Stream) (type_id : ℕ) (s : Session)
    → Finishes (Done (SameWatch s)) (on_recv_av_message msg type_id s)
unfolding on_recv_av_message
on_recv_av_message-SameWatch msg type_id s =
    Finishes-then (decode_header-Ends (av_packet msg (media_type type_id))) (λ packet _.
      Finishes-then (keep_header-SameWatch packet s) (λ s' h.
        Finishes-then (fan_out-Ends packet s'.players)
          (λ r _. returns (with_players-SameWatch s s' r h))))

-- A data message that its publisher has handled.
pub on_recv_data_message-SameWatch :
    (msg : Stream) (s : Session) → Finishes (Done (SameWatch s)) (on_recv_data_message (ok msg) s)
unfolding on_recv_data_message
on_recv_data_message-SameWatch msg s = from_publisher s.publisher
  where
    from_publisher :
        (publisher : Option ℕ)
        → Finishes (Done (SameWatch s)) (elim publisher [
          | none ↦ ok (done s)
          | some _ ↦ (do
            let packet = av_packet msg meta_data
            r ← fan_out packet s.players
            ok (with_players (record s { meta_data = some packet }) r))
        ])
    from_publisher none = returns (SameWatch-refl s)
    from_publisher (some n) =
        Finishes-then (fan_out-Ends (av_packet msg meta_data) s.players) (λ r _. returns (
          with_players-SameWatch s (record s { meta_data = some (av_packet msg meta_data) }) r
            (record {
              same_publisher = refl;
              same_offline = refl;
              same_watch = refl;
              same_key = refl;
            })))

pub close_players-Ends : (players : List (Key × Player)) → Ends (close_players players)
unfolding close_players
close_players-Ends [] = returns tt
close_players-Ends ((k, p) ∷ players) =
    Finishes-then (close_packet_buffer-Ends p) (λ _ _. close_players-Ends players)

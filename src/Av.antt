-- ===== src/Av.antt =====
-- pkg/av/packet.go, pkg/av/flv/tag.go and demuxer.go: audio and video packets, and the header
-- that begins a packet's data.
pub mod Tag
use fastlive.Base.{ℕ, zero, suc, ◌+◌, ◌*◌, ◌/◌, ◌%◌, ◌^◌, Bool, true, false, List, [], ◌∷◌}
use fastlive.Base.{ltb, ◌==◌, ◌&&◌, ◌||◌, if◌then◌else◌, length, take, drop, get_elem?}
use fastlive.Base.{Option, none, some, Outcome, ok, err, panic, ◌>>=◌, short_video, short_audio}

-- AVPacketType
abbrev pub audio_type : ℕ
audio_type = 0x08

abbrev pub video_type : ℕ
video_type = 0x09

abbrev pub meta_data : ℕ
meta_data = 0x12

-- The fields of Tag that decoding sets: those of mediaTag. `composition_time` is the bit pattern
-- of an int32.
pub record MediaTag : Type 0 where
  pub sound_format : ℕ
  pub sound_rate : ℕ
  pub sound_size : ℕ
  pub sound_type : ℕ
  pub aac_packet_type : ℕ
  pub frame_type : ℕ
  pub codec_id : ℕ
  pub avc_packet_type : ℕ
  pub composition_time : ℕ

-- `new(Tag)`
abbrev pub zero_tag : MediaTag
zero_tag = record {
  sound_format = 0;
  sound_rate = 0;
  sound_size = 0;
  sound_type = 0;
  aac_packet_type = 0;
  frame_type = 0;
  codec_id = 0;
  avc_packet_type = 0;
  composition_time = 0;
}

pub record Packet : Type 0 where
  pub packet_header : Option MediaTag
  pub bytes : List ℕ
  pub timestamp : ℕ
  pub stream_id : ℕ
  pub packet_type : ℕ

-- `b[i]`
unfoldable pub index : List ℕ → ℕ → Outcome ℕ
index b i = elim (get_elem? b i) [ some x ↦ ok x | none ↦ panic ]

unfoldable pub is_key_frame : MediaTag → Bool
is_key_frame t = t.frame_type == 1

unfoldable pub is_sequence_header : MediaTag → Bool
unfolding is_key_frame
is_sequence_header t = is_key_frame t && t.avc_packet_type == 0

-- `t<<8 + int32(b[i])` for the bytes b[2], b[3] and b[4].
unfoldable pub add_composition_time : ℕ → List ℕ → ℕ
add_composition_time t [] = t
add_composition_time t (b ∷ bs) = add_composition_time ((t * 2 ^ 8 % 2 ^ 32 + b) % 2 ^ 32) bs

-- The part of decodeVideoHeader for H.264 key and inter frames.
unfoldable pub decode_avc : MediaTag → List ℕ → Outcome (ℕ × MediaTag)
decode_avc t b = do
  kind ← index b 1
  ok (
    5,
    record t {
      avc_packet_type = kind;
      composition_time = add_composition_time t.composition_time (take 3 (drop 2 b));
    },
  )

-- decodeVideoHeader: the size of the header, and the tag.
unfoldable pub decode_video_header : MediaTag → List ℕ → Outcome (ℕ × MediaTag)
decode_video_header t b = if ltb (length b) 5 then err short_video else (do
  flags ← index b 0
  let t = record t { frame_type = flags / 2 ^ 4 % 2 ^ 8; codec_id = flags % 16 }
  if t.codec_id == 7 && (t.frame_type == 1 || t.frame_type == 2) then decode_avc t b else ok (1, t))

-- decodeAudioHeader. An AAC packet has one more byte, which is read without a check.
unfoldable pub decode_audio_header : MediaTag → List ℕ → Outcome (ℕ × MediaTag)
decode_audio_header t b = if ltb (length b) 1 then err short_audio else (do
  flags ← index b 0
  let t = record t {
    sound_format = flags / 2 ^ 4;
    sound_rate = flags / 2 ^ 2 % 4;
    sound_size = flags / 2 % 2;
    sound_type = flags % 2;
  }
  if t.sound_format == 10
      then (do kind ← index b 1; ok (2, record t { aac_packet_type = kind }))
      else ok (1, t))

-- DecodeMediaTagHeader
unfoldable pub decode_media_tag_header : MediaTag → List ℕ → ℕ → Outcome (ℕ × MediaTag)
decode_media_tag_header t b typ =
    if typ == video_type then decode_video_header t b else decode_audio_header t b

-- Demuxer.DecodeHeader
unfoldable pub decode_header : Packet → Outcome Packet
decode_header p = do
  (n, tag) ← decode_media_tag_header zero_tag p.bytes p.packet_type
  ok (record p { packet_header = some tag })

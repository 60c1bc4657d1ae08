-- ===== src/Av/Tag.antt =====
-- The headers of audio and video packets.
use fastlive.Base.{ℕ, ◌+◌, ◌*◌, ◌/◌, ◌^◌, ◌<◌, ◌≡◌, refl, ◌≢◌, ◌↔◌, arith}
use fastlive.Base.{
  true, List, [], ◌∷◌, ◌++◌, ok, err, panic, some, ◌⊎◌, stuck, Outcome, ◌>>=◌, ◌==◌,
}
use fastlive.Common.{uint_as_bytes, uint_bytes_big}
use fastlive.Av.{
  MediaTag, zero_tag, Packet, index, is_sequence_header, decode_avc, add_composition_time,
  decode_video_header, decode_audio_header, decode_media_tag_header, decode_header, video_type,
  audio_type,
}

-- The header of an H.264 packet: frame type and codec 7, the packet type, the time in three bytes.
abbrev pub avc_bytes : ℕ → ℕ → ℕ → List ℕ
avc_bytes frame kind time = (frame * 16 + 7) ∷ kind ∷ uint_as_bytes time 3 true

-- The header of an AAC packet: four fields in one byte, and the packet type.
abbrev pub aac_bytes : ℕ → ℕ → ℕ → ℕ → List ℕ
aac_bytes rate size channels kind = (160 + rate * 4 + size * 2 + channels) ∷ kind ∷ []

-- A key or inter frame of H.264 is decoded to the frame type, the packet type and the composition
-- time that its five header bytes hold; the other fields of the tag are left.
pub decode_media_tag_header-avc :
    (t : MediaTag) (frame kind time : ℕ) (payload : List ℕ)
    → (frame ≡ 1) ⊎ (frame ≡ 2)
    → time < 2 ^ 24
    → t.composition_time ≡ 0
    → decode_media_tag_header t (avc_bytes frame kind time ++ payload) video_type
      ≡ ok (
        5,
        record t {
          frame_type = frame;
          codec_id = 7;
          avc_packet_type = kind;
          composition_time = time;
        },
      )
unfolding decode_media_tag_header decode_video_header decode_avc index add_composition_time
    uint_as_bytes uint_bytes_big
decode_media_tag_header-avc t frame kind time payload h bound zero_time = ground arith

-- An AAC packet is decoded to the four fields of its first byte and its packet type.
pub decode_media_tag_header-aac :
    (t : MediaTag) (rate size channels kind : ℕ) (payload : List ℕ)
    → rate < 4
    → size < 2
    → channels < 2
    → decode_media_tag_header t (aac_bytes rate size channels kind ++ payload) audio_type
      ≡ ok (
        2,
        record t {
          sound_format = 10;
          sound_rate = rate;
          sound_size = size;
          sound_type = channels;
          aac_packet_type = kind;
        },
      )
unfolding decode_media_tag_header decode_audio_header index
decode_media_tag_header-aac t rate size channels kind payload hr hs hc = ground arith

-- A packet whose data is one byte that announces AAC.
abbrev IsCutAac : ℕ → List ℕ → Type 0
IsCutAac typ b = (typ ≢ video_type) × (a : ℕ) × (b ≡ a ∷ []) × (a / 16 ≡ 10)

media_tag-panic :
    (b : List ℕ) (typ : ℕ) → decode_media_tag_header zero_tag b typ ≡ panic → IsCutAac typ b
unfolding decode_media_tag_header decode_video_header decode_avc decode_audio_header index
media_tag-panic [] typ e = ground arith
media_tag-panic (a ∷ []) typ e = (ground arith, a, refl, ground arith)
media_tag-panic (a ∷ b ∷ []) typ e = ground arith
media_tag-panic (a ∷ b ∷ c ∷ []) typ e = ground arith
media_tag-panic (a ∷ b ∷ c ∷ d ∷ []) typ e = ground arith
media_tag-panic (a ∷ b ∷ c ∷ d ∷ f ∷ bs) typ e = ground arith

panic-media_tag :
    (b : List ℕ) (typ : ℕ) → IsCutAac typ b → decode_media_tag_header zero_tag b typ ≡ panic
unfolding decode_media_tag_header decode_audio_header index
panic-media_tag b typ (video, a, e, aac) = rw e (ground arith)

bind-panic :
    (m : Outcome (ℕ × MediaTag)) (p : Packet)
    → (m >>= λ r. ok (record p { packet_header = some r.1 })) ≡ panic
    → m ≡ panic
bind-panic (ok r) p e = cc
bind-panic (err x) p e = cc
bind-panic panic p e = refl
bind-panic stuck p e = cc

-- Decoding a packet's header panics exactly when the packet is no video and its data is a single
-- byte that announces AAC.
pub decode_header-panic :
    (p : Packet)
    → (decode_header p ≡ panic)
      ↔ ((p.packet_type ≢ video_type) × (a : ℕ) × (p.bytes ≡ a ∷ []) × (a / 16 ≡ 10))
unfolding decode_header
decode_header-panic p = (
  λ e. media_tag-panic p.bytes p.packet_type (bind-panic _ p e),
  λ c. rw (panic-media_tag p.bytes p.packet_type c) refl,
)

-- A key frame of any codec but H.264 counts as a sequence header.
pub is_sequence_header-other_codec :
    (frame codec : ℕ) (b c d e : ℕ) (payload : List ℕ) {n : ℕ} {tag : MediaTag}
    → frame < 16
    → codec < 16
    → codec ≢ 7
    → decode_media_tag_header zero_tag ((frame * 16 + codec) ∷ b ∷ c ∷ d ∷ e ∷ payload) video_type
      ≡ ok (n, tag)
    → is_sequence_header tag ≡ (frame == 1)
unfolding decode_media_tag_header decode_video_header decode_avc index is_sequence_header
is_sequence_header-other_codec frame codec b c d e payload hf hc ne eq = ground arith

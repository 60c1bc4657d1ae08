-- ===== src/Tests/Media.antt =====
-- Headers of one video packet and of audio packets.
use fastlive.Base.{ℕ, [], ◌∷◌, ◌++◌, ok, panic, none, ◌≡◌, ◌≢◌, ◌↔◌, refl, inl, arith, ◌/◌, ◌==◌}
use fastlive.Av.{
  MediaTag, zero_tag, Packet, is_sequence_header, decode_media_tag_header, decode_video_header,
  decode_header, audio_type, video_type, index,
}
use fastlive.Av.Tag.{
  avc_bytes, aac_bytes, decode_media_tag_header-avc, decode_media_tag_header-aac,
  decode_header-panic, is_sequence_header-other_codec,
}

decode_media_tag_header-avc_example :
    decode_media_tag_header zero_tag (avc_bytes 1 1 0x102030 ++ (200 ∷ [])) video_type
    ≡ ok (
      5,
      record zero_tag {
        frame_type = 1;
        codec_id = 7;
        avc_packet_type = 1;
        composition_time = 0x102030;
      },
    )
decode_media_tag_header-avc_example =
    decode_media_tag_header-avc zero_tag 1 1 0x102030 (200 ∷ []) (inl refl) (omega arith) refl

decode_media_tag_header-aac_example :
    decode_media_tag_header zero_tag (aac_bytes 3 1 1 0 ++ (18 ∷ 16 ∷ [])) audio_type
    ≡ ok (
      2,
      record zero_tag {
        sound_format = 10;
        sound_rate = 3;
        sound_size = 1;
        sound_type = 1;
        aac_packet_type = 0;
      },
    )
decode_media_tag_header-aac_example =
    decode_media_tag_header-aac zero_tag 3 1 1 0 (18 ∷ 16 ∷ []) (omega arith) (omega arith)
      (omega arith)

abbrev cut : Packet
cut = record {
  packet_header = none;
  bytes = 175 ∷ [];
  timestamp = 0;
  stream_id = 1;
  packet_type = audio_type;
}

decode_header-panic_example :
    (decode_header cut ≡ panic)
    ↔ ((cut.packet_type ≢ video_type) × (a : ℕ) × (cut.bytes ≡ a ∷ []) × (a / 16 ≡ 10))
decode_header-panic_example = decode_header-panic cut

-- A key frame of VP6.
abbrev vp6_tag : MediaTag
vp6_tag = record zero_tag { frame_type = 1; codec_id = 4 }

is_sequence_header-other_codec_example : is_sequence_header vp6_tag ≡ (1 == 1)
unfolding decode_media_tag_header decode_video_header index
is_sequence_header-other_codec_example =
    is_sequence_header-other_codec 1 4 0 0 0 0 [] {n = 1} {tag = vp6_tag} (omega arith)
      (omega arith) (ground arith) refl

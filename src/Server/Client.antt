-- ===== src/Server/Client.antt =====
-- pkg/rtmp/server/utils.go: what a client says of itself, and the key of its stream.
pub mod Keys
use fastlive.Base.{ℕ, Bool, false, [], ◌∷◌, ◌++◌, Key, codes}
use fastlive.Server.Amf.{
  Fields, value_at, as_text, as_boolean, as_number, as_int, as_converted, or_keep,
}

pub record ClientConnectInfo : Type 0 where
  pub app : Key
  pub flash_ver : Key
  pub swf_url : Key
  pub tc_url : Key
  pub fpad : Bool
  pub audio_codecs : ℕ
  pub video_codecs : ℕ
  pub video_function : ℕ
  pub page_url : Key
  pub object_encoding : ℕ

pub record ClientPublishOrPlayInfo : Type 0 where
  -- 0, 1 (publish) or 2 (play)
  pub client_type : ℕ
  pub stream : Key
  pub app : Key

pub record OnMetaData : Type 0 where
  pub duration : ℕ
  pub filesize : ℕ
  pub encoder : Key
  pub width : ℕ
  pub height : ℕ
  pub video_codec_id : ℕ
  pub framerate : ℕ
  pub videodata_rate : ℕ
  pub audio_codec_id : ℕ
  pub audiochannels : ℕ
  pub stereo : Bool
  pub audiodatarate : ℕ
  pub audiosamplerate : ℕ
  pub audiosamplesize : ℕ

-- The zero values.
abbrev pub no_connect_info : ClientConnectInfo
no_connect_info = record {
  app = [];
  flash_ver = [];
  swf_url = [];
  tc_url = [];
  fpad = false;
  audio_codecs = 0;
  video_codecs = 0;
  video_function = 0;
  page_url = [];
  object_encoding = 0;
}

abbrev pub no_play_info : ClientPublishOrPlayInfo
no_play_info = record { client_type = 0; stream = []; app = [] }

abbrev pub no_meta_data : OnMetaData
no_meta_data = record {
  duration = 0;
  filesize = 0;
  encoder = [];
  width = 0;
  height = 0;
  video_codec_id = 0;
  framerate = 0;
  videodata_rate = 0;
  audio_codec_id = 0;
  audiochannels = 0;
  stereo = false;
  audiodatarate = 0;
  audiosamplerate = 0;
  audiosamplesize = 0;
}

-- The object of a connect command, in handleConnectCommandMessage.
unfoldable pub read_connect_object : (ℕ → ℕ) → Fields → ClientConnectInfo → ClientConnectInfo
read_connect_object int_of v info = record info {
  app = or_keep (as_text (value_at (codes "app") v)) info.app;
  flash_ver = or_keep (as_text (value_at (codes "flashVer") v)) info.flash_ver;
  swf_url = or_keep (as_text (value_at (codes "swfUrl") v)) info.swf_url;
  tc_url = or_keep (as_text (value_at (codes "tcUrl") v)) info.tc_url;
  fpad = or_keep (as_boolean (value_at (codes "fpad") v)) info.fpad;
  audio_codecs = or_keep (as_int (value_at (codes "audioCodecs") v)) info.audio_codecs;
  video_codecs = or_keep (as_int (value_at (codes "videoCodecs") v)) info.video_codecs;
  video_function = or_keep (as_int (value_at (codes "videoFunction") v)) info.video_function;
  page_url = or_keep (as_text (value_at (codes "pageUrl") v)) info.page_url;
  object_encoding =
      or_keep (as_converted int_of (value_at (codes "objectEncoding") v)) info.object_encoding;
}

-- An object of a data message, in handleSetDataFrameDataMessage.
unfoldable pub read_meta_object : (ℕ → ℕ) → Fields → OnMetaData → OnMetaData
read_meta_object int_of v m = record m {
  duration = or_keep (as_number (value_at (codes "duration") v)) m.duration;
  filesize = or_keep (as_number (value_at (codes "fileSize") v)) m.filesize;
  encoder = or_keep (as_text (value_at (codes "encoder") v)) m.encoder;
  width = or_keep (as_number (value_at (codes "width") v)) m.width;
  height = or_keep (as_number (value_at (codes "height") v)) m.height;
  video_codec_id =
      or_keep (as_converted int_of (value_at (codes "videocodecid") v)) m.video_codec_id;
  framerate = or_keep (as_number (value_at (codes "framerate") v)) m.framerate;
  videodata_rate = or_keep (as_number (value_at (codes "videodatarate") v)) m.videodata_rate;
  audio_codec_id =
      or_keep (as_converted int_of (value_at (codes "audiocodecid") v)) m.audio_codec_id;
  audiochannels =
      or_keep (as_converted int_of (value_at (codes "audiochannels") v)) m.audiochannels;
  stereo = or_keep (as_boolean (value_at (codes "stereo") v)) m.stereo;
  audiodatarate = or_keep (as_number (value_at (codes "audiodatarate") v)) m.audiodatarate;
  audiosamplerate = or_keep (as_number (value_at (codes "audiosamplerate") v)) m.audiosamplerate;
  audiosamplesize = or_keep (as_number (value_at (codes "audiosamplesize") v)) m.audiosamplesize;
}

-- genStreamKey
unfoldable pub gen_stream_key : Key → Key → Key → Key
gen_stream_key vhost app_name stream_name =
    vhost ++ (codes "/" ++ (app_name ++ (codes "/" ++ stream_name)))

-- parseVhost does not look at the URL.
unfoldable pub parse_vhost : Key → Key
parse_vhost tc_url = codes "127.0.0.1"

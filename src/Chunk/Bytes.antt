-- ===== src/Chunk/Bytes.antt =====
-- What an encoded header looks like, as plain lists.
use fastlive.Base.{ℕ, ◌+◌, ◌-◌, ◌*◌, true, false, List, [], ◌∷◌, ◌++◌, ltb, leb, ◌==◌}
use fastlive.Base.{if◌then◌else◌}
use fastlive.Common.{uint_as_bytes}
use fastlive.Chunk.{MessageHeader, Header}

-- One, two or three bytes, by the size of the chunk stream id.
unfoldable pub basic_bytes : ℕ → ℕ → List ℕ
basic_bytes fmt csid =
    if ltb csid 64
    then (fmt * 64 + csid) ∷ []
    else if ltb csid 320
    then (fmt * 64) ∷ (csid - 64) ∷ []
    else (fmt * 64 + 1) ∷ uint_as_bytes (csid - 64) 2 false

-- The first three, seven or all eleven bytes of the full message header, or none.
unfoldable pub message_bytes : MessageHeader → ℕ → List ℕ
message_bytes mh fmt =
    if leb 3 fmt
    then []
    else uint_as_bytes (if leb 0xffffff mh.timestamp then 0xffffff else mh.timestamp) 3 true
      ++ (if leb fmt 1
          then uint_as_bytes mh.message_length 3 true
            ++ (uint_as_bytes mh.message_type_id 1 true
                ++ (if fmt == 0 then uint_as_bytes mh.message_stream_id 4 false else []))
          else [])

unfoldable pub header_bytes : Header → List ℕ
header_bytes h = basic_bytes h.fmt h.csid ++ message_bytes h.message_header h.fmt

-- ===== src/Proto/Media.antt =====
-- Descriptors that prefix media payloads (crates/ndp-proto/src/media.rs, with the codec names of
-- crates/ndp-proto/src/caps.rs).
pub mod RoundTrip
use nebula_desk.Prelude.{ℕ, List, [], ◌∷◌, ◌++◌, ltb, ◌==◌, if◌then◌else◌, ◌||◌}
use nebula_desk.Prelude.Bytes.{to_le}
use nebula_desk.Proto.{
  Result, ok, err, ◌>>=◌, ◌>>◌, refuse, invalid_value, number, pixels, read_u8, read_u16, read_u32,
}

pub data VideoCodec : Type 0 where
  hevc h264 av1 : VideoCodec

pub data AudioCodec : Type 0 where
  opus : AudioCodec

abbrev pub video_info_len : ℕ
video_info_len = 12

abbrev pub audio_info_len : ℕ
audio_info_len = 4

unfoldable pub video_codec_id : VideoCodec → ℕ
video_codec_id h264 = 1
video_codec_id hevc = 2
video_codec_id av1 = 3

unfoldable pub video_codec_from_id : ℕ → Result VideoCodec
video_codec_from_id v =
    if v == 1
    then ok h264
    else if v == 2
    then ok hevc
    else if v == 3
    then ok av1
    else err (invalid_value "video codec" (number v))

pub record VideoFrameInfo : Type 0 where
  pub display : ℕ  -- u8
  pub codec : VideoCodec
  pub width : ℕ  -- u16
  pub height : ℕ  -- u16
  pub duration_us : ℕ  -- u32

unfoldable pub video_to_bytes : VideoFrameInfo → List ℕ
video_to_bytes info =
    to_le 1 info.display
    ++ (to_le 1 (video_codec_id info.codec)
        ++ (to_le 2 0 ++ (to_le 2 info.width ++ (to_le 2 info.height ++ to_le 4 info.duration_us))))

unfoldable pub video_split : List ℕ → Result (VideoFrameInfo × List ℕ)
video_split payload = do
  (display, c1) ← read_u8 payload
  (code, c2) ← read_u8 c1
  codec ← video_codec_from_id code
  (reserved, c3) ← read_u16 c2
  (width, c4) ← read_u16 c3
  (height, c5) ← read_u16 c4
  (duration_us, c6) ← read_u32 c5
  refuse (width == 0 || height == 0) (invalid_value "frame size" (pixels width height))
  ok (
    record {
      display = display;
      codec = codec;
      width = width;
      height = height;
      duration_us = duration_us;
    },
    c6,
  )

unfoldable pub video_payload : VideoFrameInfo → List ℕ → List ℕ
unfolding video_to_bytes
video_payload info bitstream = video_to_bytes info ++ bitstream

pub record AudioFrameInfo : Type 0 where
  pub codec : AudioCodec
  pub channels : ℕ  -- u8
  pub frame_ms : ℕ  -- u8

unfoldable pub audio_to_bytes : AudioFrameInfo → List ℕ
audio_to_bytes info = 1 ∷ info.channels ∷ info.frame_ms ∷ 0 ∷ []

unfoldable pub audio_codec_from_id : ℕ → Result AudioCodec
audio_codec_from_id v = if v == 1 then ok opus else err (invalid_value "audio codec" (number v))

unfoldable pub audio_split : List ℕ → Result (AudioFrameInfo × List ℕ)
audio_split payload = do
  (code, c1) ← read_u8 payload
  codec ← audio_codec_from_id code
  (channels, c2) ← read_u8 c1
  (frame_ms, c3) ← read_u8 c2
  (reserved, c4) ← read_u8 c3
  refuse (channels == 0 || ltb 8 channels) (invalid_value "channels" (number channels))
  ok (record { codec = codec; channels = channels; frame_ms = frame_ms }, c4)

unfoldable pub audio_payload : AudioFrameInfo → List ℕ → List ℕ
unfolding audio_to_bytes
audio_payload info packet = audio_to_bytes info ++ packet

-- ===== src/Proto/Media/RoundTrip.antt =====
-- The media descriptors and their parsers agree.
use nebula_desk.Prelude.{
  ℕ, ◌^◌, ◌≤◌, ◌<◌, List, ltb, ◌==◌, false, ◌≡◌, refl, arith, ◌||◌, All, append_assoc, ap,
}
use nebula_desk.Prelude.Bytes.{IsByte}
use nebula_desk.Proto.{ok}
use nebula_desk.Proto.Readers.{read_int-to_le, read_u8-cons, read_inv, refuse_inv, bind_inv, ok_inv}
use nebula_desk.Proto.Media.{
  VideoCodec, hevc, video_codec_id, video_codec_from_id, VideoFrameInfo, video_split, video_payload,
  AudioCodec, opus, AudioFrameInfo, audio_codec_from_id, audio_split, audio_payload,
}

pub record IsVideo (info : VideoFrameInfo) : Type 0 where
  pub display : info.display < 2 ^ 8
  pub width : info.width < 2 ^ 16
  pub height : info.height < 2 ^ 16
  pub duration_us : info.duration_us < 2 ^ 32
  pub wide : 0 < info.width
  pub high : 0 < info.height

video_codec-id :
    (c : VideoCodec) → (video_codec_from_id (video_codec_id c) ≡ ok c) × (video_codec_id c < 256)
unfolding video_codec_id video_codec_from_id
video_codec-id hevc = (refl, omega arith)
video_codec-id _ = (refl, omega arith)

-- A video payload splits into the descriptor and the bitstream that it was built from, if the
-- fields fit their widths and the picture is not empty.
pub video_split-payload :
    (info : VideoFrameInfo) (bitstream : List ℕ)
    → IsVideo info
    → video_split (video_payload info bitstream) ≡ ok (info, bitstream)
unfolding video_split video_payload
video_split-payload info bitstream v =
    let (known, small) = video_codec-id info.codec in
    let sized : (info.width == 0 || info.height == 0) ≡ false = ground arith in
    simp append_assoc (
      rw (
        read_int-to_le 1 info.display _ v.display,
        read_int-to_le 1 (video_codec_id info.codec) _ small,
        known,
        read_int-to_le 2 0 _ (omega arith),
        read_int-to_le 2 info.width _ v.width,
        read_int-to_le 2 info.height _ v.height,
        read_int-to_le 4 info.duration_us _ v.duration_us,
        sized,
      ))

-- Whatever bytes arrive, a descriptor that is accepted has a size that is not zero and fields
-- within their widths.
pub video_split-IsVideo :
    (payload : List ℕ) {info : VideoFrameInfo} {rest : List ℕ}
    → All IsByte payload
    → video_split payload ≡ ok (info, rest)
    → IsVideo info
unfolding video_split
video_split-IsVideo payload {info} {rest} b0 g0 =
    read_inv 1 payload _ b0 g0 λ display c1 e1 l1 b1 g1.
      read_inv 1 c1 _ b1 g1 λ code c2 e2 l2 b2 g2.
        bind_inv (video_codec_from_id code) _ g2 λ codec known g3.
          read_inv 2 c2 _ b2 g3 λ reserved c3 e3 l3 b3 g4.
            read_inv 2 c3 _ b3 g4 λ width c4 e4 l4 b4 g5.
              read_inv 2 c4 _ b4 g5 λ height c5 e5 l5 b5 g6.
                read_inv 4 c5 _ b5 g6 λ duration_us c6 e6 l6 b6 g7.
                  refuse_inv (width == 0 || height == 0) _ _ g7 λ sized g8.
                    ok_inv (λ (q : VideoFrameInfo × List ℕ). IsVideo q.0)
                      (
                        record {
                          display = display;
                          codec = codec;
                          width = width;
                          height = height;
                          duration_us = duration_us;
                        },
                        c6,
                      )
                      g8
                      (record {
                        display = l1;
                        width = l4;
                        height = l5;
                        duration_us = l6;
                        wide = ground arith;
                        high = ground arith;
                      })

pub record IsAudio (info : AudioFrameInfo) : Type 0 where
  pub some_channels : 0 < info.channels
  pub few_channels : info.channels ≤ 8
  pub frame_ms : info.frame_ms < 2 ^ 8

only_opus : (c : AudioCodec) → opus ≡ c
only_opus opus = refl

-- An audio payload splits into the descriptor and the packet that it was built from.
pub audio_split-payload :
    (info : AudioFrameInfo) (packet : List ℕ)
    → IsAudio info
    → audio_split (audio_payload info packet) ≡ ok (info, packet)
unfolding audio_split audio_payload audio_codec_from_id
audio_split-payload info packet v =
    let counted : (info.channels == 0 || ltb 8 info.channels) ≡ false = ground arith in
    rw
      (
        read_u8-cons 1 _ (omega arith),
        read_u8-cons info.channels _ (omega arith),
        read_u8-cons info.frame_ms _ v.frame_ms,
        read_u8-cons 0 _ (omega arith),
        counted,
      )
      (ap (λ c. ok (record info { codec = c }, packet)) (only_opus info.codec))

-- An audio descriptor that is accepted has one to eight channels.
pub audio_split-IsAudio :
    (payload : List ℕ) {info : AudioFrameInfo} {rest : List ℕ}
    → All IsByte payload
    → audio_split payload ≡ ok (info, rest)
    → IsAudio info
unfolding audio_split
audio_split-IsAudio payload b0 g0 = read_inv 1 payload _ b0 g0 λ code c1 e1 l1 b1 g1.
    bind_inv (audio_codec_from_id code) _ g1 λ codec known g2.
      read_inv 1 c1 _ b1 g2 λ channels c2 e2 l2 b2 g3.
        read_inv 1 c2 _ b2 g3 λ frame_ms c3 e3 l3 b3 g4.
          read_inv 1 c3 _ b3 g4 λ reserved c4 e4 l4 b4 g5.
            refuse_inv (channels == 0 || ltb 8 channels) _ _ g5 λ counted g6.
              ok_inv (λ (q : AudioFrameInfo × List ℕ). IsAudio q.0)
                (record { codec = codec; channels = channels; frame_ms = frame_ms }, c4) g6
                (record {
                  some_channels = ground arith;
                  few_channels = ground arith;
                  frame_ms = l3;
                })

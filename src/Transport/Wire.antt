-- ===== src/Transport/Wire.antt =====
-- Carrier framing (crates/ndp-transport/src/wire.rs, and `read_framed` of session.rs on the bytes
-- of a stream that has ended).
use nebula_desk.Prelude.{
  ℕ, ◌/◌, min, length-take, ◌^◌, ◌%◌, ◌≤◌, ◌<◌, List, [], ◌∷◌, ◌++◌, length, take, drop,
  length-append, take-append, drop-append, ltb, if◌then◌else◌, false, Option, none, some, ◌≡◌, refl,
  sym, arith, append_assoc, Bool-cases, inl, inr,
}
use nebula_desk.Prelude.Bytes.{to_le, from_le, from_le-to_le}
use nebula_desk.Proto
use nebula_desk.Proto.Channel.{Channel, id, from_id}
use nebula_desk.Transport.{Result, ok, err, ◌>>=◌, unknown_channel, record_too_large, truncated}

abbrev pub channel_prefix_len : ℕ
channel_prefix_len = 4

abbrev pub length_prefix_len : ℕ
length_prefix_len = 4

unfoldable pub channel_prefix : Channel → ℕ → List ℕ
channel_prefix channel urgency = to_le 2 (id channel % 2 ^ 16) ++ urgency ∷ 0 ∷ []

-- The four bytes are those of an array; the id is in the first two.
unfoldable pub parse_channel : List ℕ → Result Channel
parse_channel bytes =
    let id = from_le (take 2 bytes) in
    elim (from_id id) [ Proto.ok c ↦ ok c | Proto.err e ↦ err (unknown_channel id) ]

unfoldable pub check_len : ℕ → ℕ → Result (Unit {0})
check_len len limit = if ltb limit len then err (record_too_large len limit) else ok tt

unfoldable pub frame : List ℕ → ℕ → Result (List ℕ)
unfolding check_len
frame record' limit = do
  _ ← check_len (length record') limit
  ok (to_le 4 (length record' % 2 ^ 32) ++ record')

-- What is read from a stream, and the bytes behind it; `none` where the stream ends before the
-- length prefix.
unfoldable pub read_framed : List ℕ → ℕ → Result (Option (List ℕ × List ℕ))
unfolding check_len
read_framed [] limit = ok none
read_framed (b ∷ bs) limit =
    let stream = b ∷ bs in
    if ltb (length stream) length_prefix_len
    then err (truncated "length prefix" (length stream))
    else do
      let len = from_le (take 4 stream)
      let body = drop 4 stream
      _ ← check_len len limit
      if ltb (length body) len
          then err (truncated "record body" (length body))
          else ok (some (take len body, drop len body))

-- The head of a carrier names its channel, whatever the urgency.
pub parse_channel-channel_prefix :
    (c : Channel) (urgency : ℕ) → parse_channel (channel_prefix c urgency) ≡ ok c
unfolding parse_channel channel_prefix id from_id to_le from_le
parse_channel-channel_prefix Channel.control urgency = refl
parse_channel-channel_prefix Channel.video urgency = refl
parse_channel-channel_prefix Channel.audio urgency = refl
parse_channel-channel_prefix Channel.input urgency = refl
parse_channel-channel_prefix Channel.clipboard urgency = refl
parse_channel-channel_prefix Channel.file urgency = refl

read_framed-bytes :
    (b0 b1 b2 b3 n : ℕ) (body : List ℕ) (limit : ℕ)
    → from_le (b0 ∷ b1 ∷ b2 ∷ b3 ∷ []) ≡ n
    → n ≤ limit
    → n ≤ length body
    → read_framed (b0 ∷ b1 ∷ b2 ∷ b3 ∷ body) limit ≡ ok (some (take n body, drop n body))
unfolding read_framed check_len
read_framed-bytes b0 b1 b2 b3 n body limit value within full =
    let headed : ltb (length (b0 ∷ b1 ∷ b2 ∷ b3 ∷ body)) 4 ≡ false = ground arith in
    let fits : ltb limit n ≡ false = ground arith in
    let whole : ltb (length body) n ≡ false = ground arith in rw (headed, value, fits, whole) refl

read_framed-to_le :
    (n : ℕ) (body : List ℕ) (limit : ℕ)
    → n < 2 ^ 32
    → n ≤ limit
    → n ≤ length body
    → read_framed (to_le 4 n ++ body) limit ≡ ok (some (take n body, drop n body))
unfolding to_le
read_framed-to_le n body limit h within full =
    read_framed-bytes (n % 256) (n / 256 % 256) (n / 256 / 256 % 256) (n / 256 / 256 / 256 % 256) n
      body limit (from_le-to_le 4 n h) within full

-- A record that was framed within a limit below 2^32 is read back under the same limit, with what
-- follows it left in the stream.
pub read_framed-frame :
    (record' rest : List ℕ) (limit : ℕ) {framed : List ℕ}
    → limit < 2 ^ 32
    → frame record' limit ≡ ok framed
    → read_framed (framed ++ rest) limit ≡ ok (some (record', rest))
unfolding frame check_len
read_framed-frame record' rest limit {framed} small h =
    elim (Bool-cases (ltb limit (length record'))) [
      | inl over ↦ ground arith
      | inr fits ↦
          let n = length record' in
          let whole : to_le 4 (n % 2 ^ 32) ++ record' ≡ framed = ground arith in
          let mod_n : n % 2 ^ 32 ≡ n = ground arith in
          let long : n ≤ length (record' ++ rest) = omega (arith, length-append record' rest) in
          let read =
            read_framed-to_le n (record' ++ rest) limit (ground arith) (ground arith) long in
          rw
            (
              sym whole,
              mod_n,
              append_assoc,
              read,
              take-append record' rest,
              drop-append record' rest,
            )
            refl
    ]

-- Whatever the bytes, a record that is read is no longer than the limit.
pub length-read_framed :
    (stream : List ℕ) (limit : ℕ) {record' rest : List ℕ}
    → read_framed stream limit ≡ ok (some (record', rest))
    → length record' ≤ limit
unfolding read_framed check_len
length-read_framed [] limit h = cc
length-read_framed (b ∷ bs) limit {record'} {rest} h =
    let stream = b ∷ bs in
    let len = from_le (take 4 stream) in
    let body = drop 4 stream in
    elim (Bool-cases (ltb (length stream) 4)) [
      | inl short ↦ ground arith
      | inr headed ↦ elim (Bool-cases (ltb limit len)) [
        | inl over ↦ ground arith
        | inr fits ↦ elim (Bool-cases (ltb (length body) len)) [
          | inl cut ↦ ground arith
          | inr whole ↦
              let same : take len body ≡ record' = ground arith in
              let size : length record' ≡ min len (length body) =
                rw same at (length-take len body) in
              ground arith
        ]
      ]
    ]

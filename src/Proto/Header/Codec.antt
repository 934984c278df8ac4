-- ===== src/Proto/Header/Codec.antt =====
-- Encoding and decoding of the record header are inverse to each other.
use nebula_desk.Prelude.{
  ℕ, ◌^◌, ◌<◌, List, ◌++◌, length, ◌==◌, not, false, ◌≡◌, refl, arith, All, append_assoc,
  length-append,
}
use nebula_desk.Prelude.Bytes.{IsByte, length-to_le}
use nebula_desk.Proto.{ok, unsupported_version}
use nebula_desk.Proto.Readers.{read_int-to_le, read_inv, refuse_inv, bind_inv, ok_inv}
use nebula_desk.Proto.Header.{
  MsgKind, MsgHeader, to_u8, from_u8, to_bytes, decode, split, protocol_version, header_len, hello,
}

pub from_u8-to_u8 : (kind : MsgKind) → from_u8 (to_u8 kind) ≡ ok kind
unfolding from_u8 to_u8
from_u8-to_u8 hello = refl
from_u8-to_u8 _ = refl

pub to_u8-lt : (kind : MsgKind) → to_u8 kind < 256
unfolding to_u8
to_u8-lt hello = omega arith
to_u8-lt _ = omega arith

pub to_u8-from_u8 : (v : ℕ) {kind : MsgKind} → from_u8 v ≡ ok kind → to_u8 kind ≡ v
unfolding from_u8 to_u8
to_u8-from_u8 v h = ground arith

-- A header that this version of the protocol writes.
pub record IsValid (h : MsgHeader) : Type 0 where
  pub version : h.version ≡ protocol_version
  pub flags : h.flags < 2 ^ 16
  pub seq : h.seq < 2 ^ 32
  pub timestamp_us : h.timestamp_us < 2 ^ 64

pub length-to_bytes : (h : MsgHeader) → length (to_bytes h) ≡ header_len
unfolding to_bytes
length-to_bytes h = simp (length-append, length-to_le)

-- Splitting a record gives back the header that was written, if its version is current and its
-- fields fit their widths, and the payload behind it.
pub split-to_bytes :
    (h : MsgHeader) (payload : List ℕ) → IsValid h → split (to_bytes h ++ payload) ≡ ok (h, payload)
unfolding split to_bytes
split-to_bytes h payload v =
    let small : h.version < 256 = omega arith in
    let accepted : not (h.version == protocol_version) ≡ false = ground arith in
    simp append_assoc (
      rw (
        read_int-to_le 1 h.version _ small,
        accepted,
        read_int-to_le 1 (to_u8 h.kind) _ (to_u8-lt h.kind),
        from_u8-to_u8 h.kind,
        read_int-to_le 2 h.flags _ v.flags,
        read_int-to_le 4 h.seq _ v.seq,
        read_int-to_le 8 h.timestamp_us _ v.timestamp_us,
      ))

pub decode-eq_ok :
    (buf : List ℕ) {h : MsgHeader} {rest : List ℕ}
    → All IsByte buf
    → decode buf ≡ ok (h, rest)
    → (buf ≡ to_bytes h ++ rest) × IsValid h
unfolding decode to_bytes
decode-eq_ok buf {h} {rest} b0 g0 = read_inv 1 buf _ b0 g0 λ version r1 e1 l1 b1 g1.
    refuse_inv (not (version == protocol_version)) (unsupported_version version) _ g1 λ current g2.
      read_inv 1 r1 _ b1 g2 λ code r2 e2 l2 b2 g3. bind_inv (from_u8 code) _ g3 λ kind known g4.
        read_inv 2 r2 _ b2 g4 λ flags r3 e3 l3 b3 g5. read_inv 4 r3 _ b3 g5 λ seq r4 e4 l4 b4 g6.
          read_inv 8 r4 _ b4 g6 λ timestamp_us r5 e5 l5 b5 g7.
            ok_inv (λ (q : MsgHeader × List ℕ). (buf ≡ to_bytes q.0 ++ q.1) × IsValid q.0)
              (
                record {
                  version = version;
                  kind = kind;
                  flags = flags;
                  seq = seq;
                  timestamp_us = timestamp_us;
                },
                r5,
              )
              g7
              (
                simp (e1, e2, e3, e4, e5, append_assoc, to_u8-from_u8 code known),
                record { version = ground arith; flags = l3; seq = l4; timestamp_us = l5 },
              )

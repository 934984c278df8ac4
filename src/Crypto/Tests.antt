-- ===== src/Crypto/Tests.antt =====
-- Runs of the record layer at concrete inputs, with a cipher that only appends a tag of zeros.
use nebula_desk.Prelude.{
  ℕ, ◌+◌, ◌-◌, ◌^◌, ◌%◌, All, false, Bool, ◌&&◌, List, [], ◌∷◌, ◌++◌, length, length-append, take,
  take-append, replicate, ltb, some, ◌≡◌, refl, ap, sym, arith, true, min, inr,
}
use nebula_desk.Prelude.Bytes.{to_le, IsByte}
use nebula_desk.Proto.Channel.{Channel}
use nebula_desk.Proto.Header
use nebula_desk.Proto.Header.{MsgHeader}
use nebula_desk.Crypto.Aead.{Aead, AeadLaws}
use nebula_desk.Crypto.Replay
use nebula_desk.Crypto.Replay.{accept_all, with_width, strict}
use nebula_desk.Crypto.Replay.Window.{Tracks, with_width-Tracks}
use nebula_desk.Crypto.Replay.History.{admit_all, accept_all-admit_all}
use nebula_desk.Crypto.Replay.Once.{Distinct, kept, accept_all-Distinct}
use nebula_desk.Crypto.Expander
use nebula_desk.Crypto.Expander.{SeqExpander, expand, commit, Near, expand-wire, expand-commit}
use nebula_desk.Crypto.Record.{
  ok, err, RecordSealer, RecordOpener, new_sealer, new_opener, window_for, seal, open_record,
  short_record, numbered,
}
use nebula_desk.Crypto.Record.Seal.{Request, nonces, AllDifferent, HasRoom, nonces-AllDifferent}
use nebula_desk.Crypto.Record.Open.{open_record_error}
use nebula_desk.Crypto.Record.Once.{accepted, accepted-Distinct}
use nebula_desk.Crypto.Record.Delivery.{CanSeal, InStep, open_record-seal}

abbrev tag : List ℕ
tag = replicate 16 0

abbrev toy : Aead
toy = record {
  encrypt = λ key nonce aad text. some (text ++ tag);
  decrypt = λ key nonce aad cipher. some (take (length cipher - 16) cipher);
}

toy_opens : (text : List ℕ) → take (length (text ++ tag) - 16) (text ++ tag) ≡ text
toy_opens text =
    let size : length (text ++ tag) - 16 ≡ length text = omega (arith, length-append text tag) in
    rw size (take-append text tag)

toy_laws : AeadLaws toy
toy_laws = record {
  opens = λ key nonce aad text cipher e.
      let whole : text ++ tag ≡ cipher = cc in rw (sym whole) (ap some (toy_opens text));
  tagged = λ key nonce aad text cipher e.
      let whole : text ++ tag ≡ cipher = cc in rw (sym whole) (length-append text tag);
}

abbrev ping_header : MsgHeader
ping_header = record { version = 3; kind = Header.ping; flags = 0; seq = 7; timestamp_us = 99 }

abbrev key : List ℕ
key = 1 ∷ 2 ∷ 3 ∷ []

abbrev sealer : RecordSealer
sealer = new_sealer key

abbrev opener : RecordOpener
opener = new_opener key

abbrev first_record : List ℕ
first_record = Header.to_bytes (numbered ping_header 0) ++ 5 ∷ 6 ∷ [] ++ tag

sealed_first : (seal toy sealer Channel.control ping_header (5 ∷ 6 ∷ [])).1 ≡ ok first_record
unfolding seal new_sealer Header.to_bytes to_le
sealed_first = refl

in_step : InStep sealer opener Channel.control
unfolding new_sealer new_opener Replay.would_accept Expander.new Replay.strict Replay.with_width
    window_for
in_step = record { key = refl; reach = inr (refl, omega arith); fresh = refl }

can_seal : CanSeal ping_header
can_seal = record { version = refl; flags = omega arith; timestamp_us = omega arith }

open_record-seal_example :
    (open_record toy opener Channel.control first_record).1
    ≡ ok (numbered ping_header 0, 5 ∷ 6 ∷ [])
unfolding new_sealer
open_record-seal_example =
    open_record-seal toy toy_laws sealer opener Channel.control ping_header (5 ∷ 6 ∷ []) can_seal
      in_step sealed_first

short_refused : (open_record toy opener Channel.video (1 ∷ [])).1 ≡ err (short_record 1)
unfolding open_record
short_refused = refl

open_record_error_example : (open_record toy opener Channel.video (1 ∷ [])).0 ≡ opener
open_record_error_example = open_record_error toy opener Channel.video (1 ∷ []) short_refused

tracked : Tracks (opener.channels Channel.control).window []
unfolding new_opener window_for Replay.strict
tracked = with_width-Tracks 0

abbrev all_bytes : List ℕ → Bool
all_bytes [] = true
all_bytes (b ∷ bs) = ltb b 256 && all_bytes bs

All-all_bytes : (bs : List ℕ) → all_bytes bs ≡ true → All IsByte bs
All-all_bytes [] h = tt
All-all_bytes (b ∷ bs) h = (ground arith, All-all_bytes bs (ground arith))

first_bytes : All IsByte first_record
unfolding Header.to_bytes to_le Header.to_u8
first_bytes = All-all_bytes first_record refl

abbrev two_requests : List Request
two_requests =
    (Channel.control, ping_header, [])
    ∷ (Channel.video, ping_header, 9 ∷ [])
    ∷ (Channel.control, ping_header, [])
    ∷ []

room : HasRoom sealer 3
unfolding new_sealer
room c = omega arith

nonces-AllDifferent_example : AllDifferent (nonces toy sealer two_requests)
nonces-AllDifferent_example = nonces-AllDifferent toy sealer two_requests room

accepted-Distinct_example : Distinct (
    accepted toy
      (new_opener key)
      Channel.control
      ((Channel.control, first_record) ∷ (Channel.control, first_record) ∷ []))
accepted-Distinct_example =
    accepted-Distinct toy key Channel.control
      ((Channel.control, first_record) ∷ (Channel.control, first_record) ∷ [])

abbrev arrivals : List ℕ
arrivals = 5 ∷ 3 ∷ 5 ∷ 70 ∷ 4 ∷ 68 ∷ []

answers : (accept_all (with_width 64) arrivals).1 ≡ true ∷ true ∷ false ∷ true ∷ false ∷ true ∷ []
unfolding accept_all with_width Replay.accept Replay.would_accept Replay.shifted
answers = refl

accept_all-admit_all_example :
    (accept_all (with_width 64) arrivals).1 ≡ (admit_all (min 64 64) [] arrivals).1
accept_all-admit_all_example = accept_all-admit_all 64 arrivals

accept_all-Distinct_example : Distinct (kept arrivals (accept_all (with_width 64) arrivals).1)
accept_all-Distinct_example = accept_all-Distinct 64 arrivals

abbrev rolled : SeqExpander
rolled = record { highest = 2 ^ 32 + 5; started = true }

rolled-Near : Near rolled (2 ^ 32 - 3)
rolled-Near = record {
  started = refl;
  highest_u64 = omega arith;
  full_u64 = omega arith;
  above = omega arith;
  below = omega arith;
}

expand-wire_example : expand rolled ((2 ^ 32 - 3) % 2 ^ 32) ≡ 2 ^ 32 - 3
expand-wire_example = expand-wire rolled (2 ^ 32 - 3) rolled-Near

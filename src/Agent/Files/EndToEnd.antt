-- ===== src/Agent/Files/EndToEnd.antt =====
-- A file from one engine to the other: the offer and the chunks that the sender makes, and what the
-- receiver stores.
use mathlib.Core.List.{Memᴰ}
use nebula_desk.Prelude.{
  ℕ, ◌+◌, ◌≤◌, ◌<◌, ◌≡◌, inl, inr, refl, sym, ◌∙◌, subst, List, [], ◌∷◌, length, ltb, leb, Bool,
  true, false, not, Option, some, arith, All, Bool-cases, ◌==◌,
}
use nebula_desk.Prelude.Elements.{All-Mem, Mem-All}
use nebula_desk.Prelude.Maps.{lookup, Keyed, insert-Keyed, lookup-insert_self}
use nebula_desk.Proto.Transfer.{has_safe_name}
use nebula_desk.Agent.Files.{
  Name, not_permitted, too_many, not_regular, too_large, unsafe_name, io_failed, Offer, Action,
  announce, Sending, FileTransfers, max_active, max_file,
}
use nebula_desk.Agent.Files.Disk.{exists}
use nebula_desk.Agent.Files.Send.{
  Result, ok, err, name_of, Source, make_offer, started, begin_send, send_file, SendOp, send_run,
}
use nebula_desk.Agent.Files.Send.Progress.{Progress, Sent, some-injective}
use nebula_desk.Agent.Files.Send.Run.{send_run-Sent}
use nebula_desk.Agent.Files.Receive.Published.{Ensures, Ensures-refuse, Ensures-bind}
use nebula_desk.Agent.Files.Receive.{Closing, on_offer, receive_all}
use nebula_desk.Agent.Files.Receive.Delivery.{Smooth, Delivered}
use nebula_desk.Agent.Files.Receive.Run.{
  Chunk, IsChunk, Covered, receive_all-Delivered, on_offer-Begun,
}

-- An offer tells of the file it is made for.
record Describes (hash : List ℕ → List ℕ) (id : ℕ) (content : List ℕ) (offer : Offer) : Type 0 where
  transfer_id : offer.transfer_id ≡ id
  size : offer.size ≡ length content
  blake3 : offer.blake3 ≡ hash content
  small : length content ≤ max_file

make_offer-Describes :
    (hash : List ℕ → List ℕ) (e : FileTransfers) (id : ℕ) (source : Source)
    → Ensures (Describes hash id source.content) (make_offer hash e id source)
unfolding make_offer
make_offer-Describes hash e id source =
    let P : Offer → Type 0 = Describes hash id source.content in
    Ensures-refuse P (not e.enabled) not_permitted _ λ a.
      Ensures-refuse P (leb max_active (length e.sending)) too_many _ λ b.
        Ensures-bind P (name_of source.name) _ λ name.
          Ensures-refuse P (not source.stated) io_failed _ λ c.
            Ensures-refuse P (not source.is_file) not_regular _ λ d.
              Ensures-refuse P (not source.opens) io_failed _ λ f.
                Ensures-refuse P (not source.still_file) not_regular _ λ g.
                  Ensures-refuse P (ltb max_file (length source.content)) too_large _ λ k.
                    Ensures-refuse P (not source.reads) io_failed _ λ l.
                      Ensures-refuse P (not (has_safe_name name)) unsafe_name _ λ m. record {
                        transfer_id = refl;
                        size = refl;
                        blake3 = refl;
                        small = ground arith;
                      }

announce-injective :
    {o p : Offer} → ◌≡◌ {A = Result Action} (ok (announce o)) (ok (announce p)) → o ≡ p
announce-injective h = cc

-- An accepted file is under way from its first byte on.
record Offered (hash : List ℕ → List ℕ) (content : List ℕ) (offer : Offer) (e : FileTransfers)
    : Type 0 where
  described : Describes hash offer.transfer_id content offer
  under_way : Sent content offer.transfer_id e []

started-Progress :
    (content : List ℕ) (offer : Offer) (now : ℕ)
    → offer.size ≡ length content
    → Progress content (started offer now) []
started-Progress content offer now size = record {
  sound = record {
    size = size;
    within = omega arith;
    pending = λ unfinished. elim (Bool-cases (offer.size == 0)) [
      | inl empty ↦ inr (ground arith)
      | inr full ↦ inl (ground arith)
    ];
    over = λ finished. cc;
  };
  begun = λ finished. cc;
  covered = λ x h. omega arith;
  granted = λ x c. absurd c;
}

begin_send-Offered :
    (hash : List ℕ → List ℕ) (content : List ℕ) (e : FileTransfers) (id : ℕ) (shown : Name)
    (size now : ℕ) (made : Result Offer) (offer : Offer)
    → Ensures (Describes hash id content) made
    → Keyed e.sending
    → (begin_send e id shown size now made).1 ≡ ok (announce offer)
    → Offered hash content offer (begin_send e id shown size now made).0
unfolding begin_send
begin_send-Offered hash content e id shown size now (err error) offer made keyed h = cc
begin_send-Offered hash content e id shown size now (ok o) offer made keyed h =
    let same : o ≡ offer = announce-injective h in
    let s = started o now in
    let key = made.transfer_id in
    subst (λ p. Offered hash content p (begin_send e id shown size now (ok o)).0) same
      (record {
        described = record {
          transfer_id = refl;
          size = made.size;
          blake3 = made.blake3;
          small = made.small;
        };
        under_way =
            subst (λ i. Sent content i (begin_send e id shown size now (ok o)).0 []) (sym key)
              (record {
                keyed = insert-Keyed id s e.sending keyed;
                parts = tt;
                progress = λ t found.
                    let own : s ≡ t =
                      some-injective (sym (lookup-insert_self id s e.sending) ∙ found) in
                    subst (λ u. Progress content u []) own
                      (started-Progress content o now made.size);
              });
      })

send_file-Offered :
    (hash : List ℕ → List ℕ) (e : FileTransfers) (source : Source) (shown : Name) (size now : ℕ)
    (offer : Offer)
    → Keyed e.sending
    → (send_file hash e source shown size now).1 ≡ ok (announce offer)
    → Offered hash source.content offer (send_file hash e source shown size now).0
unfolding send_file
send_file-Offered hash e source shown size now offer keyed h =
    let id = e.next_id in
    let e' = record e { next_id = id + 1 } in
    begin_send-Offered hash source.content e' id shown size now (make_offer hash e' id source) offer
      (make_offer-Describes hash e' id source) keyed h

-- A byte in one of the chunks is in one of those of a list that has them all.
Covered-Mem :
    (x : ℕ) (chunk : Chunk) (chunks : List Chunk)
    → Memᴰ chunk chunks
    → chunk.0.offset ≤ x
    → x < chunk.0.offset + length chunk.1
    → Covered x chunks
Covered-Mem x chunk [] m lo hi = elim m [ ]
Covered-Mem x chunk ((header, bytes, now) ∷ chunks) (Memᴰ.head same) lo hi =
    inl (subst (λ (c : Chunk). (c.0.offset ≤ x) × (x < c.0.offset + length c.1)) same (lo, hi))
Covered-Mem x chunk ((header, bytes, now) ∷ chunks) (Memᴰ.tail m) lo hi =
    inr (Covered-Mem x chunk chunks m lo hi)

Covered-all :
    (x : ℕ) (sent arrived : List Chunk)
    → All (λ chunk. Memᴰ chunk arrived) sent
    → Covered x sent
    → Covered x arrived
Covered-all x [] arrived all c = absurd c
Covered-all x ((header, bytes, now) ∷ sent) arrived all (inl here) =
    Covered-Mem x (header, bytes, now) arrived all.0 here.0 here.1
Covered-all x ((header, bytes, now) ∷ sent) arrived all (inr later) =
    Covered-all x sent arrived all.1 later

-- The chunks that the sender made are enough, in any order and with repetitions.
deliver_sent :
    (hash : List ℕ → List ℕ) (content : List ℕ) (offer : Offer) (s : Sending)
    (sent arrived : List Chunk) (g : FileTransfers) (dir_ok opens : Bool) (later : ℕ) (a : Action)
    (closing : Closing)
    → Describes hash offer.transfer_id content offer
    → Progress content s sent
    → All (IsChunk content offer.transfer_id) sent
    → s.finished ≡ true
    → (on_offer g offer dir_ok opens later).1 ≡ some a
    → All (λ chunk. Memᴰ chunk sent) arrived
    → All (λ chunk. Memᴰ chunk arrived) sent
    → Smooth closing
    → (path : Name) × (exists path g.disk ≡ false)
      × Delivered content path g.disk offer.transfer_id
          (receive_all hash closing (on_offer g offer dir_ok opens later).0 arrived)
deliver_sent hash content offer s sent [] g dir_ok opens later a closing d p parts finished accepted
      from all smooth =
    nothing sent (p.begun finished) all
  where
    nothing : {G : Type 0} (l : List Chunk) → 0 < length l → All (λ chunk. Memᴰ chunk []) l → G
    nothing [] h m = absurd (omega arith)
    nothing (c ∷ l) h m = elim m.0 [ ]
deliver_sent hash content offer s sent (chunk ∷ arrived) g dir_ok opens later a closing d p parts
      finished accepted from all smooth =
    let begun = on_offer-Begun hash content g offer dir_ok opens later d.size d.blake3 a accepted in
    let r = begun.0 in
    let valid : All (IsChunk content offer.transfer_id) (chunk ∷ arrived) =
      Mem-All _ (chunk ∷ arrived) λ c m.
        All-Mem (IsChunk content offer.transfer_id) sent c parts
          (All-Mem (λ c. Memᴰ c sent) (chunk ∷ arrived) c from m) in
    let sound = p.sound in
    let whole = sound.over finished in
    let announced = sound.size in
    let every : (x : ℕ) → x < length content → Covered x (chunk ∷ arrived) =
      λ x h. Covered-all x sent (chunk ∷ arrived) all (p.covered x (omega arith)) in
    (
      r.final_path,
      begun.2,
      receive_all-Delivered hash content r.final_path g.disk offer.transfer_id closing smooth
          begun.2 d.small (on_offer g offer dir_ok opens later).0 r chunk arrived begun.1 valid
          every,
    )

-- A file that one engine accepts to send, and another to receive, is stored there with the sender's
-- bytes under a name that was free, and nothing else in the directory changes: however the sender's
-- chunks, acknowledgements and expiries are interleaved with those of its other files, once it has
-- sent the whole file (its slot is finished), if all chunks of the file arrive, in any order and
-- with any repetitions, and nothing else arrives meanwhile, and the calls of the receiver's file
-- system succeed. The file does not change while it is sent, and no two transfers of the sender have
-- one number at the start.
pub transfer-Delivered :
    (hash : List ℕ → List ℕ) (e : FileTransfers) (source : Source) (shown : Name) (size now : ℕ)
    (offer : Offer) (files : ℕ → Option (List ℕ)) (ops : List SendOp) (s : Sending)
    (arrived : List Chunk) (g : FileTransfers) (dir_ok opens : Bool) (later : ℕ) (a : Action)
    (closing : Closing)
    → Keyed e.sending
    → (send_file hash e source shown size now).1 ≡ ok (announce offer)
    → files offer.transfer_id ≡ some source.content
    → lookup offer.transfer_id
        (send_run files offer.transfer_id
          (send_file hash e source shown size now).0
          ops
          []).0.sending
      ≡ some s
    → s.finished ≡ true
    → (on_offer g offer dir_ok opens later).1 ≡ some a
    → All
        (λ chunk.
          Memᴰ chunk
            (send_run files offer.transfer_id (send_file hash e source shown size now).0 ops []).1)
        arrived
    → All
        (λ chunk. Memᴰ chunk arrived)
        (send_run files offer.transfer_id (send_file hash e source shown size now).0 ops []).1
    → Smooth closing
    → (path : Name) × (exists path g.disk ≡ false)
      × Delivered source.content path g.disk offer.transfer_id
          (receive_all hash closing (on_offer g offer dir_ok opens later).0 arrived)
transfer-Delivered hash e source shown size now offer files ops s arrived g dir_ok opens later a
      closing keyed sent file left finished accepted from all smooth =
    let id = offer.transfer_id in
    let o = send_file-Offered hash e source shown size now offer keyed sent in
    let run =
      send_run-Sent source.content files id (send_file hash e source shown size now).0 ops [] file
        o.under_way in
    deliver_sent hash source.content offer s
      (send_run files id (send_file hash e source shown size now).0 ops []).1 arrived g dir_ok opens
      later a closing o.described (run.progress s left) run.parts finished accepted from all smooth

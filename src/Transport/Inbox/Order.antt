-- ===== src/Transport/Inbox/Order.antt =====
-- What the inbox holds and hands over, over any sequence of arrivals and deliveries.
use nebula_desk.Prelude.{
  ℕ, zero, suc, ◌+◌, ◌≡◌, refl, sym, ap, ◌∙◌, subst, List, [], ◌∷◌, ◌++◌, ◌==◌, if◌then◌else◌, none,
  some, arith, Bool-cases, Option-cases, inl, inr, append-nil,
}
use nebula_desk.Proto.Channel
use nebula_desk.Proto.Channel.{Channel, id-injective}
use nebula_desk.Transport.Routes.{Shared, write, ack_kind}
use nebula_desk.Transport.Liveness.{Link, internal}
use nebula_desk.Transport.Liveness.Received.{internal-received}
use nebula_desk.Transport.Inbox.{
  Incoming, World, find, discard, deliver, hand_over, ack_all, ids_of,
}

find-discard_self : (seq : ℕ) (l : List (ℕ × Incoming)) → find seq (discard seq l) ≡ none
unfolding find discard
find-discard_self seq [] = refl
find-discard_self seq ((k, m) ∷ l) = let rest = find-discard_self seq l in ground arith

find-discard :
    (seq n : ℕ) (l : List (ℕ × Incoming)) {m : Incoming}
    → find n (discard seq l) ≡ some m
    → find n l ≡ some m
unfolding find discard
find-discard seq n [] h = h
find-discard seq n ((k, x) ∷ l) {m} h = elim (Bool-cases (k == n)) [
  | inl here ↦ elim (Bool-cases (k == seq)) [
    | inl gone ↦
        let e : n ≡ seq = ground arith in
        let nothing : find n (discard seq l) ≡ none = rw e (find-discard_self seq l) in ground arith
    | inr stays ↦ ground arith
  ]
  | inr there ↦ let rest = find-discard seq n l {m = m} in ground arith
]

-- The messages of a list that came on a channel.
unfoldable pub on_channel : Channel → List Incoming → List Incoming
on_channel c [] = []
on_channel c (m ∷ ms) =
    let rest = on_channel c ms in if Channel.id m.channel == Channel.id c then m ∷ rest else rest

pub on_channel-append :
    (c : Channel) (xs ys : List Incoming)
    → on_channel c (xs ++ ys) ≡ on_channel c xs ++ on_channel c ys
unfolding on_channel
on_channel-append c [] ys = refl
on_channel-append c (m ∷ xs) ys = let rest = on_channel-append c xs ys in ground arith

-- The first `n` messages of a stream.
unfoldable pub prefix : (ℕ → Incoming) → ℕ → List Incoming
prefix stream zero = []
prefix stream (suc n) = prefix stream n ++ stream n ∷ []

-- The state of channel `c` against the stream that its peer has numbered: what is held under a
-- number is the stream's message of that number, and what was handed over is an initial part of
-- the stream, as long as the receive counter says.
pub record InOrder (c : Channel) (stream : ℕ → Incoming) (w : World) : Type 0 where
  pub held :
      (seq : ℕ) (m : Incoming) → find seq (w.inbox.pending (Channel.id c)) ≡ some m → m ≡ stream seq
  pub filed :
      (i seq : ℕ) (m : Incoming) → find seq (w.inbox.pending i) ≡ some m → Channel.id m.channel ≡ i
  pub delivered : on_channel c w.output ≡ prefix stream (w.shared.received (Channel.id c))

-- The same state with another shared part that has the same counters.
pub InOrder-shared :
    (c : Channel) (stream : ℕ → Incoming) (w : World) (s : Shared)
    → s.received ≡ w.shared.received
    → InOrder c stream w
    → InOrder c stream (record w { shared = s })
InOrder-shared c stream w s same h = record {
  held = h.held;
  filed = h.filed;
  delivered = h.delivered ∙ ap (λ (f : ℕ → ℕ). prefix stream (f (Channel.id c))) (sym same);
}

ack_all-received :
    (link : Link) (s : Shared) (ids : List ℕ) (now : ℕ)
    → (ack_all link s ids now).received ≡ s.received
unfolding ack_all
ack_all-received link s [] now = refl
ack_all-received link s (i ∷ ids) now =
    ack_all-received link (internal link s i ack_kind none now) ids now
    ∙ internal-received link s i ack_kind none now

module _ (link : Link) (c : Channel) (stream : ℕ → Incoming) (w : World) (index : ℕ) (m : Incoming)
    (now : ℕ) (found : find (w.shared.received index) (w.inbox.pending index) ≡ some m) where
  next : ℕ
  next = w.shared.received index

  hand_over-received :
      (hand_over link w index m now).shared.received ≡ write w.shared.received index (next + 1)
  unfolding hand_over next
  hand_over-received =
      let taken : Shared = record (w.shared) {
        received = write w.shared.received index (next + 1);
      } in
      ack_all-received link taken
        (ids_of w.shared.routes.relay_path ++ ids_of w.shared.routes.direct_path) now

  find-hand_over :
      (i seq : ℕ) {x : Incoming}
      → find seq ((hand_over link w index m now).inbox.pending i) ≡ some x
      → find seq (w.inbox.pending i) ≡ some x
  unfolding hand_over
  find-hand_over i seq {x} h =
      let left = discard (w.shared.received index) (w.inbox.pending index) in
      elim (Bool-cases (i == index)) [
        | inl here ↦
            let e : i ≡ index = ground arith in
            let cut : find seq left ≡ some x = rw here at h in
            rw e (find-discard (w.shared.received index) seq (w.inbox.pending index) cut)
        | inr there ↦ rw there at h
      ]

  delivered-hand_over :
      InOrder c stream w
      → on_channel c (w.output ++ m ∷ [])
        ≡ prefix stream (write w.shared.received index (next + 1) (Channel.id c))
  unfolding on_channel prefix next
  delivered-hand_over h =
      let own : Channel.id m.channel ≡ index = h.filed index next m found in
      let before = h.delivered in
      elim (Bool-cases (Channel.id c == index)) [
        | inl here ↦
            let e : index ≡ Channel.id c = ground arith in
            let this : m ≡ stream (w.shared.received (Channel.id c)) =
              h.held (w.shared.received (Channel.id c)) m (rw e at found) in
            let counted : write w.shared.received index (next + 1) (Channel.id c)
                ≡ suc (w.shared.received (Channel.id c)) =
              rw e (ground arith) in
            let last : on_channel c (m ∷ []) ≡ m ∷ [] = ground arith in
            on_channel-append c w.output (m ∷ [])
            ∙ rw (last, before, counted)
                (ap (λ x. prefix stream (w.shared.received (Channel.id c)) ++ x ∷ []) this)
        | inr there ↦
            let last : on_channel c (m ∷ []) ≡ [] = ground arith in
            let counted : write w.shared.received index (next + 1) (Channel.id c)
                ≡ w.shared.received (Channel.id c) =
              ground arith in
            on_channel-append c w.output (m ∷ [])
            ∙ rw (last, counted, append-nil (on_channel c w.output)) before
      ]

  hand_over-InOrder : InOrder c stream w → InOrder c stream (hand_over link w index m now)
  unfolding hand_over
  hand_over-InOrder h = record {
    held = λ seq x e. h.held seq x (find-hand_over (Channel.id c) seq e);
    filed = λ i seq x e. h.filed i seq x (find-hand_over i seq e);
    delivered =
        delivered-hand_over h
        ∙ ap (λ (f : ℕ → ℕ). prefix stream (f (Channel.id c))) (sym hand_over-received);
  }

-- Handing over what is ready on any channel keeps the order.
pub deliver-InOrder :
    (link : Link) (c : Channel) (stream : ℕ → Incoming) (w : World) (index now : ℕ)
    → InOrder c stream w
    → InOrder c stream (deliver link w index now)
unfolding deliver
deliver-InOrder link c stream w index now h =
    let next = w.shared.received index in
    elim (Option-cases (find next (w.inbox.pending index))) [
      | inl missing ↦
          let same : deliver link w index now ≡ w = ground arith in
          subst (InOrder c stream) (sym same) h
      | inr (m, found) ↦
          let same : deliver link w index now ≡ hand_over link w index m now = ground arith in
          subst (InOrder c stream) (sym same)
            (hand_over-InOrder link c stream w index m now found h)
    ]

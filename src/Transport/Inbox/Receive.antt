-- ===== src/Transport/Inbox/Receive.antt =====
-- A message that arrives, whatever it holds, keeps each reliable channel in order.
use nebula_desk.Prelude.{
  ℕ, ◌+◌, ◌-◌, ◌*◌, ◌^◌, ◌≡◌, refl, sym, ap, ◌∙◌, subst, List, [], ◌∷◌, ◌++◌, take, drop, length,
  get_or, ltb, leb, ◌==◌, if◌then◌else◌, Bool, true, false, not, ◌||◌, ◌&&◌, none, some, arith,
  Bool-cases, Option-cases, inl, inr, append-nil,
}
use nebula_desk.Proto.Channel
use nebula_desk.Proto.Channel.{Channel, id-injective}
use nebula_desk.Proto.Header
use nebula_desk.Proto.Header.{to_u8}
use nebula_desk.Transport.{Result, ok, err}
use nebula_desk.Transport.Routes.{
  Shared, byte_window, reliable, window, ack_kind, probe_kind, echo_kind, data_kind, publish,
  envelope_len, magic,
}
use nebula_desk.Transport.Liveness.{Link, internal, peer_ready, read_acks}
use nebula_desk.Transport.Liveness.Received.{
  internal-received, peer_ready-received, read_acks-received, echo-received,
}
use nebula_desk.Transport.Lossy
use nebula_desk.Transport.Inbox.{
  Incoming, World, find, store, receive_reliable, receive_lossy, is_reliable, lossy_index,
  same_bytes, receive_data, receive_internal, receive, answer, accept_acks, bare, sequence_of,
  epoch_of, is_audio,
}
use nebula_desk.Transport.Inbox.Order.{
  on_channel, on_channel-append, prefix, InOrder, InOrder-shared,
}

module _ (c : Channel) (stream : ℕ → Incoming) where
  store-InOrder :
      (w : World) (seq : ℕ) (m : Incoming)
      → (m.channel ≡ c → m ≡ stream seq)
      → InOrder c stream w
      → InOrder c stream (store w (Channel.id m.channel) seq m)
  unfolding find
  store-InOrder w seq m honest h =
      let index = Channel.id m.channel in
      record {
        held = λ n x e. elim (Bool-cases (Channel.id c == index)) [
          | inl here ↦
              let own : Channel.id m.channel ≡ Channel.id c = ground arith in
              let this : m ≡ stream seq = honest (id-injective m.channel c own) in
              elim (Bool-cases (seq == n)) [
                | inl new_one ↦
                    let found : m ≡ x = ground arith in
                    let number : seq ≡ n = ground arith in sym found ∙ this ∙ ap stream number
                | inr old ↦
                    let before : find n (w.inbox.pending index) ≡ some x = rw (here, old) at e in
                    h.held n x (rw (sym own) before)
              ]
          | inr there ↦ h.held n x (rw there at e)
        ];
        filed = λ i n x e. elim (Bool-cases (i == index)) [
          | inl here ↦
              let at_index : i ≡ index = ground arith in
              elim (Bool-cases (seq == n)) [
                | inl new_one ↦
                    let found : m ≡ x = ground arith in
                    ap (λ (q : Incoming). Channel.id q.channel) (sym found) ∙ sym at_index
                | inr old ↦
                    let before : find n (w.inbox.pending index) ≡ some x = rw (here, old) at e in
                    h.filed i n x (rw at_index before)
              ]
          | inr there ↦ h.filed i n x (rw there at e)
        ];
        delivered = h.delivered;
      }

  receive_reliable-InOrder :
      (link : Link) (w : World) (id seq : ℕ) (m : Incoming) (now : ℕ)
      → (m.channel ≡ c → m ≡ stream seq)
      → InOrder c stream w
      → InOrder c stream (receive_reliable link w id seq m now).0
  unfolding receive_reliable
  receive_reliable-InOrder link w id seq m now honest h =
      let index = Channel.id m.channel in
      let next = w.shared.received index in
      let step = (receive_reliable link w id seq m now).0 in
      elim (Bool-cases (ltb seq next)) [
        | inl old ↦
            let told = internal link w.shared id ack_kind none now in
            let same : step ≡ record w { shared = told } = ground arith in
            subst (InOrder c stream) (sym same) (
              InOrder-shared c stream w told (internal-received link w.shared id ack_kind none now)
                h)
        | inr current ↦ elim (Bool-cases (seq == 2 ^ 64 - 1 || leb window (seq - next))) [
          | inl beyond ↦ let same : step ≡ w = ground arith in subst (InOrder c stream) (sym same) h
          | inr within ↦ elim (Option-cases (find seq (w.inbox.pending index))) [
            | inl fresh ↦
                elim (Bool-cases
                  (leb (w.inbox.bytes + length m.payload) (byte_window * length reliable))) [
                    | inl fits ↦
                        let same : step ≡ store w index seq m = ground arith in
                        subst (InOrder c stream) (sym same) (store-InOrder w seq m honest h)
                    | inr full ↦
                        let same : step ≡ w = ground arith in subst (InOrder c stream) (sym same) h
                  ]
            | inr (p, again) ↦
                let same : step ≡ w = ground arith in subst (InOrder c stream) (sym same) h
          ]
        ]
      ]

  media_elsewhere :
      (m : Incoming)
      → is_reliable c ≡ true
      → is_reliable m.channel ≡ false
      → on_channel c (m ∷ []) ≡ []
  unfolding on_channel
  media_elsewhere m sure media = elim (Bool-cases (Channel.id m.channel == Channel.id c)) [
    | inl same ↦
        let e : m.channel ≡ c = id-injective m.channel c (ground arith) in
        let again : is_reliable m.channel ≡ true = rw e sure in cc
    | inr differ ↦ ground arith
  ]

  InOrder-same :
      (w w' : World)
      → w'.inbox.pending ≡ w.inbox.pending
      → w'.shared.received ≡ w.shared.received
      → on_channel c w'.output ≡ on_channel c w.output
      → InOrder c stream w
      → InOrder c stream w'
  InOrder-same w w' pending received output h = record {
    held = λ seq m e.
        h.held seq m
          (ap (λ (f : ℕ → List (ℕ × Incoming)). find seq (f (Channel.id c))) (sym pending) ∙ e);
    filed = λ i seq m e.
        h.filed i seq m (ap (λ (f : ℕ → List (ℕ × Incoming)). find seq (f i)) (sym pending) ∙ e);
    delivered =
        output ∙ h.delivered ∙ ap (λ (f : ℕ → ℕ). prefix stream (f (Channel.id c))) (sym received);
  }

  on_channel-media :
      (out : List Incoming) (m : Incoming) (taken : Bool)
      → on_channel c (m ∷ []) ≡ []
      → on_channel c (if taken then out ++ m ∷ [] else out) ≡ on_channel c out
  on_channel-media out m true e =
      on_channel-append c out (m ∷ []) ∙ rw (e) (append-nil (on_channel c out))
  on_channel-media out m false e = refl

  receive_lossy-InOrder :
      (w : World) (seq epoch : ℕ) (m : Incoming) (has_room : Bool)
      → is_reliable c ≡ true
      → is_reliable m.channel ≡ false
      → InOrder c stream w
      → InOrder c stream (receive_lossy w seq epoch m has_room)
  unfolding receive_lossy publish
  receive_lossy-InOrder w seq epoch m has_room sure media h =
      elim (Bool-cases (ltb epoch w.inbox.media_epoch)) [
        | inl stale ↦
            let same : receive_lossy w seq epoch m has_room ≡ w = ground arith in
            subst (InOrder c stream) (sym same) h
        | inr current ↦
            let fresh = (Lossy.accept (w.inbox.lossy (lossy_index m.channel)) seq).1 in
            let output : (receive_lossy w seq epoch m has_room).output
                ≡ (if fresh && has_room then w.output ++ m ∷ [] else w.output) =
              ground arith in
            InOrder-same w (receive_lossy w seq epoch m has_room) (ground arith) (ground arith)
              (ap (on_channel c) output
                ∙ on_channel-media w.output m (fresh && has_room) (media_elsewhere m sure media))
              h
      ]

  receive_data-InOrder :
      (scaled : ℕ → ℕ) (link : Link) (w : World) (id : ℕ) (m : Incoming) (has_room : Bool) (now : ℕ)
      → is_reliable c ≡ true
      → (m.channel ≡ c → bare m ≡ stream (sequence_of m))
      → InOrder c stream w
      → InOrder c stream (receive_data scaled link w id m has_room now).0
  unfolding receive_data
  receive_data-InOrder scaled link w id m has_room now sure honest h =
      let told = peer_ready w.shared id now in
      let w' = record w { shared = told } in
      let h' = InOrder-shared c stream w told (peer_ready-received w.shared id now) h in
      let step = (receive_data scaled link w id m has_room now).0 in
      elim (Bool-cases (ltb (length m.payload) envelope_len)) [
        | inl short ↦ let same : step ≡ w = ground arith in subst (InOrder c stream) (sym same) h
        | inr long ↦ elim (Bool-cases (is_reliable m.channel)) [
          | inl in_order ↦
              let same : step ≡ (receive_reliable link w' id (sequence_of m) (bare m) now).0 =
                ground arith in
              subst (InOrder c stream) (sym same)
                (receive_reliable-InOrder link w' id (sequence_of m) (bare m) now honest h')
          | inr media ↦
              let same : step ≡ receive_lossy w' (sequence_of m) (epoch_of m) (bare m) has_room =
                ground arith in
              subst (InOrder c stream) (sym same) (
                receive_lossy-InOrder w' (sequence_of m) (epoch_of m) (bare m) has_room sure media
                  h')
        ]
      ]

  answer-received :
      (scaled : ℕ → ℕ) (link : Link) (s : Shared) (id kind : ℕ) (payload : List ℕ) (now : ℕ)
      → (answer scaled link s id kind payload now).received ≡ s.received
  unfolding answer
  answer-received scaled link s id kind payload now =
      grind (arith, peer_ready-received, internal-received, echo-received)

  accept_acks-InOrder :
      (scaled : ℕ → ℕ) (link : Link) (w : World) (id kind : ℕ) (payload : List ℕ)
      (r : Shared × Result (Unit {0})) (now : ℕ)
      → r.0.received ≡ w.shared.received
      → InOrder c stream w
      → InOrder c stream (accept_acks scaled link w id kind payload r now).0
  unfolding accept_acks
  accept_acks-InOrder scaled link w id kind payload (s, err e) now same h =
      InOrder-shared c stream w s same h
  accept_acks-InOrder scaled link w id kind payload (s, ok u) now same h =
      InOrder-shared c stream w (answer scaled link s id kind payload now)
        (answer-received scaled link s id kind payload now ∙ same) h

  receive_internal-InOrder :
      (scaled : ℕ → ℕ) (link : Link) (w : World) (id kind : ℕ) (m : Incoming) (now : ℕ)
      → InOrder c stream w
      → InOrder c stream (receive_internal scaled link w id kind m now).0
  unfolding receive_internal
  receive_internal-InOrder scaled link w id kind m now h =
      let step = (receive_internal scaled link w id kind m now).0 in
      let offset : ℕ = if kind == ack_kind then 5 else 13 in
      let bytes : List ℕ = drop offset m.payload in
      elim (Bool-cases
        (not (is_audio scaled m.channel) || not (to_u8 m.header.kind == to_u8 Header.ping))) [
          | inl wrong ↦ let same : step ≡ w = rw wrong refl in subst (InOrder c stream) (sym same) h
          | inr right ↦ elim (Bool-cases (not (length m.payload == offset + length reliable * 8))) [
            | inl wrong ↦
                let same : step ≡ w = rw (right, wrong) refl in
                subst (InOrder c stream) (sym same) h
            | inr sized ↦
                let same : step
                    ≡ (accept_acks scaled link w id kind m.payload (read_acks w.shared bytes)
                        now).0 =
                  rw (right, sized) refl in
                subst (InOrder c stream) (sym same) (
                  accept_acks-InOrder scaled link w id kind m.payload (read_acks w.shared bytes) now
                    (read_acks-received w.shared bytes) h)
          ]
        ]

  pub receive-InOrder :
      (scaled : ℕ → ℕ) (link : Link) (w : World) (id : ℕ) (m : Incoming) (has_room : Bool) (now : ℕ)
      → is_reliable c ≡ true
      → (m.channel ≡ c → bare m ≡ stream (sequence_of m))
      → InOrder c stream w
      → InOrder c stream (receive scaled link w id m has_room now).0
  unfolding receive
  receive-InOrder scaled link w id m has_room now sure honest h =
      let kind = get_or m.payload 4 0 in
      let step = (receive scaled link w id m has_room now).0 in
      elim (Bool-cases (ltb (length m.payload) 5 || not (same_bytes (take 4 m.payload) magic))) [
        | inl bad ↦ let same : step ≡ w = ground arith in subst (InOrder c stream) (sym same) h
        | inr enveloped ↦ elim (Bool-cases (kind == data_kind)) [
          | inl is_data ↦
              let same : step ≡ (receive_data scaled link w id m has_room now).0 = ground arith in
              subst (InOrder c stream) (sym same)
                (receive_data-InOrder scaled link w id m has_room now sure honest h)
          | inr other ↦
              elim (Bool-cases (kind == probe_kind || kind == echo_kind || kind == ack_kind)) [
                | inl is_internal ↦
                    let same : step ≡ (receive_internal scaled link w id kind m now).0 =
                      ground arith in
                    subst (InOrder c stream) (sym same)
                      (receive_internal-InOrder scaled link w id kind m now h)
                | inr unknown ↦
                    let same : step ≡ w = ground arith in subst (InOrder c stream) (sym same) h
              ]
        ]
      ]

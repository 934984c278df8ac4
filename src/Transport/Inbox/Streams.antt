-- ===== src/Transport/Inbox/Streams.antt =====
-- Reliable channels over any sequence of arrivals, deliveries and path changes.
use nebula_desk.Prelude.{ℕ, ◌≡◌, refl, [], Bool, true}
use nebula_desk.Proto.Channel
use nebula_desk.Proto.Channel.{Channel, id-injective}
use nebula_desk.Transport.Routes.{Shared}
use nebula_desk.Transport.Liveness.{Link, start}
use nebula_desk.Transport.Inbox.{
  Incoming, World, find, deliver, is_reliable, receive, bare, sequence_of, new,
}
use nebula_desk.Transport.Inbox.Order.{on_channel, prefix, InOrder, InOrder-shared, deliver-InOrder}
use nebula_desk.Transport.Inbox.Receive.{receive-InOrder}

module _ (c : Channel) (stream : ℕ → Incoming) where
  -- Any sequence of arrivals, deliveries, and changes of the shared state that leave the receive
  -- counters alone. What arrives on the channel carries the peer's stream, in any order and any
  -- number of times.
  pub data Run (scaled : ℕ → ℕ) : World → Type 0 where
    opened : (now : ℕ) → Run scaled (record { inbox = new; shared = start now; output = [] })
    arrived :
        {w : World} (link : Link) (id : ℕ) (m : Incoming) (has_room : Bool) (now : ℕ)
        → (m.channel ≡ c → bare m ≡ stream (sequence_of m))
        → Run scaled w
        → Run scaled (receive scaled link w id m has_room now).0
    handed :
        {w : World} (link : Link) (index now : ℕ)
        → Run scaled w
        → Run scaled (deliver link w index now)
    changed :
        {w : World} (s : Shared)
        → s.received ≡ w.shared.received
        → Run scaled w
        → Run scaled (record w { shared = s })

  opened-InOrder :
      (now : ℕ) → InOrder c stream (record { inbox = new; shared = start now; output = [] })
  unfolding new start find on_channel prefix
  opened-InOrder now = record { held = λ seq m e. cc; filed = λ i seq m e. cc; delivered = refl }

  Run-InOrder :
      (scaled : ℕ → ℕ) {w : World} → is_reliable c ≡ true → Run scaled w → InOrder c stream w
  Run-InOrder scaled sure (opened now) = opened-InOrder now
  Run-InOrder scaled sure (arrived {w} link id m has_room now honest path) =
      receive-InOrder c stream scaled link w id m has_room now sure honest
        (Run-InOrder scaled sure path)
  Run-InOrder scaled sure (handed {w} link index now path) =
      deliver-InOrder link c stream w index now (Run-InOrder scaled sure path)
  Run-InOrder scaled sure (changed {w} s same path) =
      InOrder-shared c stream w s same (Run-InOrder scaled sure path)

  -- On a reliable channel, where every data message that arrives is one of the peer's stream under
  -- its number, the application is given an initial part of that stream, each message once and in
  -- order, whatever is lost, repeated, reordered or sent over another path.
  pub Run-delivered :
      (scaled : ℕ → ℕ) {w : World}
      → is_reliable c ≡ true
      → Run scaled w
      → on_channel c w.output ≡ prefix stream (w.shared.received (Channel.id c))
  Run-delivered scaled sure path = (Run-InOrder scaled sure path).delivered

-- ===== src/Transport/Liveness/Acks.antt =====
-- What `read_acks` does to the counters, on every outcome.
use nebula_desk.Prelude.{
  ℕ, ◌≤◌, ◌*◌, ◌≡◌, refl, sym, subst, List, [], ◌∷◌, take, drop, length, ltb, ◌==◌, arith,
  Bool-cases, inl, inr, max,
}
use nebula_desk.Prelude.Bytes.{from_le}
use nebula_desk.Proto.Channel
use nebula_desk.Proto.Channel.{Channel}
use nebula_desk.Transport.Routes.{Shared, write, reliable}
use nebula_desk.Transport.Liveness.{read_each, read_acks}

-- Nothing is acknowledged that was not sent.
abbrev pub Bounded : Shared → Type 0
Bounded s = (i : ℕ) → s.acknowledged i ≤ s.allocated i

-- From `s` to `s'` no acknowledgement was taken back, and all of them are still of what was sent.
pub record Advances (s s' : Shared) : Type 0 where
  pub bounded : Bounded s'
  pub rises : (i : ℕ) → s.acknowledged i ≤ s'.acknowledged i
  pub same_allocated : s'.allocated ≡ s.allocated

stays : (s : Shared) → Bounded s → Advances s s
stays s b = record { bounded = b; rises = λ i. omega arith; same_allocated = refl }

raise : Shared → ℕ → ℕ → Shared
raise s index next = record s {
  acknowledged = write s.acknowledged index (max (s.acknowledged index) next);
}

raise-Bounded :
    (s : Shared) (index next : ℕ)
    → Bounded s
    → next ≤ s.allocated index
    → Bounded (raise s index next)
unfolding raise
raise-Bounded s index next b h i = elim (Bool-cases (i == index)) [
  | inl here ↦ let e : i ≡ index = ground arith in let x = b index in rw e (ground arith)
  | inr there ↦ let x = b i in ground arith
]

read_each-Advances :
    (s : Shared) (cs : List Channel) (bytes : List ℕ)
    → Bounded s
    → Advances s (read_each s cs bytes).0
unfolding read_each raise
read_each-Advances s [] bytes b = stays s b
read_each-Advances s (c ∷ cs) bytes b =
    let next = from_le (take 8 bytes) in
    let index = Channel.id c in
    elim (Bool-cases (ltb (s.allocated index) next)) [
      | inl beyond ↦
          let same : (read_each s (c ∷ cs) bytes).0 ≡ s = ground arith in
          subst (Advances s) (sym same) (stays s b)
      | inr within ↦
          let s1 = raise s index next in
          let rest =
            read_each-Advances s1 cs (drop 8 bytes) (raise-Bounded s index next b (ground arith)) in
          let same : (read_each s (c ∷ cs) bytes).0 ≡ (read_each s1 cs (drop 8 bytes)).0 =
            ground arith in
          subst (Advances s) (sym same) (record {
            bounded = rest.bounded;
            rises = λ i.
                let r = rest.rises i in
                elim (Bool-cases (i == index)) [
                  | inl here ↦ let e : i ≡ index = ground arith in ground arith
                  | inr there ↦ ground arith
                ];
            same_allocated = rest.same_allocated;
          })
    ]

-- Whatever bytes arrive as acknowledgements, and whether or not they are refused, no channel's
-- acknowledgement falls, and none goes beyond what was allocated.
pub read_acks-Advances :
    (s : Shared) (bytes : List ℕ) → Bounded s → Advances s (read_acks s bytes).0
unfolding read_acks
read_acks-Advances s bytes b = elim (Bool-cases (length bytes == length reliable * 8)) [
  | inl right ↦
      let same : (read_acks s bytes).0 ≡ (read_each s reliable bytes).0 = ground arith in
      subst (Advances s) (sym same) (read_each-Advances s reliable bytes b)
  | inr wrong ↦
      let same : (read_acks s bytes).0 ≡ s = ground arith in
      subst (Advances s) (sym same) (stays s b)
]

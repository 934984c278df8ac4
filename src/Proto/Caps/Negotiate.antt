-- ===== src/Proto/Caps/Negotiate.antt =====
-- What a negotiated set of capabilities is.
use nebula_desk.Prelude.{
  ℕ, min, max, ◌≤◌, ◌≡◌, inl, inr, refl, sym, ap, ◌∙◌, subst, List, [], ◌∷◌, Bool, true, false,
  ◌&&◌, none, some, arith, Bool-cases,
}
use nebula_desk.Prelude.Bits.{bit, bit_and-absorb}
use nebula_desk.Proto.Caps.{
  VideoCodec, AudioCodec, Caps, intersect, mem, common, is_empty, negotiate, same_video, same_audio,
  is_valid, settled, primary_video_codec,
}

module _ {ℓ} {A : Type ℓ} (same : A → A → Bool) where
  -- Filtering again by the same peer changes nothing.
  pub common_idem :
      (cs peer : List A) → common same (common same cs peer) peer ≡ common same cs peer
  common_idem [] peer = refl
  common_idem (c ∷ cs) peer = elim (Bool-cases (mem same c peer)) [
    | inl both ↦ simp (both, common_idem cs peer)
    | inr only ↦ simp (only, common_idem cs peer)
  ]

  is_empty-mem : (cs : List A) → is_empty cs ≡ true → (c : A) → mem same c cs ≡ false
  is_empty-mem [] h c = refl
  is_empty-mem (d ∷ cs) h c = cc

  -- What is left is in both lists, given that the test is an equality.
  pub mem-common :
      ((c d : A) → same c d ≡ true → c ≡ d)
      → (c : A) (cs peer : List A)
      → mem same c (common same cs peer) ≡ mem same c cs && mem same c peer
  mem-common exact c [] peer = refl
  mem-common exact c (d ∷ cs) peer =
      let rest = mem-common exact c cs peer in
      elim (Bool-cases (same d c)) [
        | inl here ↦
            let e : d ≡ c = exact d c here in
            let there : mem same d peer ≡ mem same c peer = ap (λ x. mem same x peer) e in
            ground arith
        | inr other ↦ ground arith
      ]

same_video-exact : (c d : VideoCodec) → same_video c d ≡ true → c ≡ d
same_video-exact c d h = ground arith

negotiate-eq_some :
    (self peer : Caps) {r : Caps}
    → negotiate self peer ≡ some r
    → (settled self peer ≡ r)
      × (is_empty (common same_video self.video_codecs peer.video_codecs) ≡ false)
unfolding negotiate
negotiate-eq_some self peer {r} h =
    elim (Bool-cases (is_empty (common same_video self.video_codecs peer.video_codecs))) [
      | inl empty ↦ ground arith
      | inr full ↦ let e : some (settled self peer) ≡ some r = ground arith in (cc, full)
    ]

-- What a session may use, agreed by both sides.
pub record Agreed (self peer r : Caps) : Type 0 where
  pub video :
      (c : VideoCodec)
      → mem same_video c r.video_codecs
        ≡ mem same_video c self.video_codecs && mem same_video c peer.video_codecs
  pub audio :
      (c : AudioCodec)
      → mem same_audio c r.audio_codecs
        ≡ mem same_audio c self.audio_codecs && mem same_audio c peer.audio_codecs
  pub primary :
      (c : VideoCodec) × (primary_video_codec r ≡ some c)
      × (mem same_video c self.video_codecs ≡ true)
      × (mem same_video c peer.video_codecs ≡ true)
  pub displays : r.displays ≡ self.displays
  pub bitrate :
      (r.max_bitrate_bps ≤ self.max_bitrate_bps) × (r.max_bitrate_bps ≤ peer.max_bitrate_bps)
  pub features : (k : ℕ) → bit k r.features ≡ min (bit k self.features) (bit k peer.features)

-- A negotiation fails only if the two sides have no video codec in common.
pub negotiate-none :
    (self peer : Caps)
    → negotiate self peer ≡ none
    → (c : VideoCodec)
    → mem same_video c self.video_codecs && mem same_video c peer.video_codecs ≡ false
unfolding negotiate
negotiate-none self peer h c =
    let shared = common same_video self.video_codecs peer.video_codecs in
    elim (Bool-cases (is_empty shared)) [
      | inl empty ↦
          sym (mem-common same_video same_video-exact c self.video_codecs peer.video_codecs)
          ∙ is_empty-mem same_video shared empty c
      | inr full ↦ ground arith
    ]

settled_stable :
    (self peer : Caps)
    → is_empty (common same_video self.video_codecs peer.video_codecs) ≡ false
    → negotiate (settled self peer) peer ≡ some (settled self peer)
unfolding negotiate settled intersect
settled_stable self peer full =
    let bitrate : min (min self.max_bitrate_bps peer.max_bitrate_bps) peer.max_bitrate_bps
        ≡ min self.max_bitrate_bps peer.max_bitrate_bps =
      omega arith in
    let rate : min (min self.audio.sample_rate peer.audio.sample_rate) peer.audio.sample_rate
        ≡ min self.audio.sample_rate peer.audio.sample_rate =
      omega arith in
    let channels : min (min self.audio.channels peer.audio.channels) peer.audio.channels
        ≡ min self.audio.channels peer.audio.channels =
      omega arith in
    let frame : max (max self.audio.frame_ms peer.audio.frame_ms) peer.audio.frame_ms
        ≡ max self.audio.frame_ms peer.audio.frame_ms =
      omega arith in
    let depth : min (min self.color.bit_depth peer.color.bit_depth) peer.color.bit_depth
        ≡ min self.color.bit_depth peer.color.bit_depth =
      omega arith in
    let range : (self.color.full_range && peer.color.full_range) && peer.color.full_range
        ≡ self.color.full_range && peer.color.full_range =
      ground arith in
    let hdr : (self.color.hdr && peer.color.hdr) && peer.color.hdr
        ≡ self.color.hdr && peer.color.hdr =
      ground arith in
    simp (
      common_idem same_video self.video_codecs peer.video_codecs,
      common_idem same_audio self.audio_codecs peer.audio_codecs,
      full,
      bitrate,
      rate,
      channels,
      frame,
      depth,
      range,
      hdr,
      bit_and-absorb self.features peer.features,
    )

-- Negotiating the result with the same peer again gives the same result.
pub negotiate_stable :
    (self peer : Caps) {r : Caps} → negotiate self peer ≡ some r → negotiate r peer ≡ some r
negotiate_stable self peer {r} h =
    let (result, full) = negotiate-eq_some self peer h in
    subst (λ q. negotiate q peer ≡ some q) result (settled_stable self peer full)

settled-is_valid :
    (self peer : Caps)
    → is_valid self ≡ true
    → is_valid peer ≡ true
    → is_empty (common same_video self.video_codecs peer.video_codecs) ≡ false
    → is_valid (settled self peer) ≡ true
unfolding is_valid settled
settled-is_valid self peer v w full = ground arith

-- What two sides with valid capabilities negotiate is valid.
pub negotiate-is_valid :
    (self peer : Caps) {r : Caps}
    → is_valid self ≡ true
    → is_valid peer ≡ true
    → negotiate self peer ≡ some r
    → is_valid r ≡ true
negotiate-is_valid self peer {r} v w h =
    let (result, full) = negotiate-eq_some self peer h in
    subst (λ q. is_valid q ≡ true) result (settled-is_valid self peer v w full)

-- ===== src/Hub/Session.antt =====
-- `ReplaySession` of agent_hub/replay.py: the two counters of a connection. The MAC of a frame without
-- its field `mac` is a parameter, and a frame is its content and the two fields.
use homepilot_core_public.Base.{
  ℕ, ◌+◌, ◌≤◌, String, ◌≡◌, refl, ap, inl, inr, Bool, true, false, ◌&&◌, Option, none, some, List,
  [], ◌∷◌, ◌==◌, ◌=ˢ◌, arith, eq_iff, if◌then◌else◌, Bool-cases, Option-cases,
}

pub record Frame : Type 0 where
  pub content : String
  pub seq : Option ℕ
  pub mac : Option String

pub record ReplaySession : Type 0 where
  pub key : String
  pub send_seq : ℕ
  pub recv_expected : ℕ

module _ (compute_mac : String → String → ℕ → String) where
  unfoldable pub stamp : String → ReplaySession → Frame × ReplaySession
  stamp content s =
      let next = s.send_seq + 1 in
      (
        record { content = content; seq = some next; mac = some (compute_mac s.key content next) },
        record s { send_seq = next },
      )

  abbrev pub mac_matches : ReplaySession → Frame → Option String → Bool
  mac_matches s frame none = false
  mac_matches s frame (some mac) = compute_mac s.key frame.content s.recv_expected =ˢ mac

  abbrev pub is_next : ReplaySession → Option ℕ → Bool
  is_next s none = false
  is_next s (some seq) = seq == s.recv_expected

  -- Whether the frame passes, and the session: an error leaves it as it was.
  unfoldable pub verify_frame : Frame → ReplaySession → Bool × ReplaySession
  verify_frame frame s =
      if is_next s frame.seq && mac_matches s frame frame.mac
      then (true, record s { recv_expected = s.recv_expected + 1 })
      else (false, s)

  -- The contents that pass, of frames that come one after the other until one fails, which closes the
  -- connection.
  unfoldable pub receive : List Frame → ReplaySession → List String
  unfolding verify_frame
  receive [] s = []
  receive (f ∷ frames) s =
      let rest = receive frames (verify_frame f s).1 in
      if (verify_frame f s).0 then f.content ∷ rest else []

  unfoldable pub send : List String → ReplaySession → List Frame
  unfolding stamp
  send [] s = []
  send (c ∷ contents) s = (stamp c s).0 ∷ send contents (stamp c s).1

  verify-stamp :
      (content : String) (s r : ReplaySession)
      → r.key ≡ s.key
      → r.recv_expected ≡ s.send_seq + 1
      → verify_frame (stamp content s).0 r
        ≡ (true, record r { recv_expected = r.recv_expected + 1 })
  unfolding stamp verify_frame
  verify-stamp content s r k e =
      let same : (compute_mac r.key content r.recv_expected
            =ˢ compute_mac s.key content (s.send_seq + 1))
          ≡ true =
        rw (k, e)
          ((eq_iff (compute_mac s.key content (s.send_seq + 1))
              (compute_mac s.key content (s.send_seq + 1))).1
            refl) in
      ground (arith, same, e)

  -- What one side sends, a side with the same key that expects its next number receives: everything,
  -- once and in order.
  pub receive-send :
      (contents : List String) (s r : ReplaySession)
      → r.key ≡ s.key
      → r.recv_expected ≡ s.send_seq + 1
      → receive (send contents s) r ≡ contents
  unfolding receive send
  receive-send [] s r k e = refl
  receive-send (c ∷ contents) s r k e = rw (verify-stamp c s r k e) (
      ap (λ rest. c ∷ rest)
        (receive-send contents (stamp c s).1 (record r { recv_expected = r.recv_expected + 1 })
          (unfold stamp in k) (unfold stamp in omega arith)))

  -- The session after frames that were checked one after the other.
  unfoldable pub verify_all : List Frame → ReplaySession → ReplaySession
  unfolding verify_frame
  verify_all [] s = s
  verify_all (f ∷ frames) s = verify_all frames (verify_frame f s).1

  verify_frame-grows :
      (f : Frame) (s : ReplaySession) → s.recv_expected ≤ (verify_frame f s).1.recv_expected
  unfolding verify_frame
  verify_frame-grows f s = ground arith

  verify_all-grows :
      (frames : List Frame) (s : ReplaySession)
      → s.recv_expected ≤ (verify_all frames s).recv_expected
  unfolding verify_all
  verify_all-grows [] s = omega arith
  verify_all-grows (f ∷ frames) s =
      omega (arith, verify_frame-grows f s, verify_all-grows frames (verify_frame f s).1)

  passed :
      (f : Frame) (s : ReplaySession)
      → (verify_frame f s).0 ≡ true
      → (f.seq ≡ some s.recv_expected) × ((verify_frame f s).1.recv_expected ≡ s.recv_expected + 1)
  unfolding verify_frame
  passed f s h = elim (Option-cases f.seq) [
    | inl e ↦ absurd (ground arith)
    | inr (q, e) ↦ (ground (arith, e), ground arith)
  ]

  -- A frame that has passed does not pass again on the same connection, whatever frames were checked in
  -- between.
  pub verify_frame_once :
      (f : Frame) (s : ReplaySession) (frames : List Frame)
      → (verify_frame f s).0 ≡ true
      → (verify_frame f (verify_all frames (verify_frame f s).1)).0 ≡ false
  verify_frame_once f s frames h =
      let (seq, next) = passed f s h in
      let grows = verify_all-grows frames (verify_frame f s).1 in
      elim (Bool-cases (verify_frame f (verify_all frames (verify_frame f s).1)).0) [
        | inr refused ↦ refused
        | inl again ↦
            let (seq', _) = passed f (verify_all frames (verify_frame f s).1) again in
            absurd (ground (arith, seq, seq', next, grows))
      ]

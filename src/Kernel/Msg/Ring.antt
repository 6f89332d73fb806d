-- ===== src/Kernel/Msg/Ring.antt =====
-- A message queue seen as the list of its pending messages, oldest first.
use cherios.Base.{
  ℕ, zero, suc, ◌+◌, ◌-◌, ◌%◌, ◌<◌, ◌≡◌, refl, ap, ap₂, ◌≢◌, true, List, [], ◌∷◌, ◌++◌, update,
  update_ne, ◌==◌, ==_iff, holds_below, holds_below_lem, arith, length,
}
use cherios.Kernel.State.{Msg, Queue}
use cherios.Kernel.Msg.{safe, step_slot, put}

-- The mask of `MAX_MSG` slots.
abbrev pub mask : ℕ
mask = 15

step_table : holds_below (λ n. step_slot n mask == (n + 1) % 16) 16 ≡ true
unfolding holds_below safe
step_table = refl

-- Masking goes round the ring.
pub step_slot-eq : (n : ℕ) → n < 16 → step_slot n mask ≡ (n + 1) % 16
step_slot-eq n h = (==_iff _ _).0 (holds_below_lem _ 16 n h step_table)

module _ {Cap : Type 0} where
  -- The `n` messages from slot `s` on.
  abbrev pub slots : (ℕ → Msg Cap) → ℕ → ℕ → List (Msg Cap)
  slots msg s zero = []
  slots msg s (suc n) = msg s ∷ slots msg ((s + 1) % 16) n

  abbrev pub count : Queue Cap → ℕ
  count q = (q.end + 16 - q.start) % 16

  abbrev pub pending : Queue Cap → List (Msg Cap)
  pending q = slots q.msg q.start (count q)

  pub record IsRing (q : Queue Cap) : Type 0 where
    pub start_in : q.start < 16
    pub end_in : q.end < 16

  pub length-slots : (msg : ℕ → Msg Cap) (s n : ℕ) → length (slots msg s n) ≡ n
  length-slots msg s zero = refl
  length-slots msg s (suc n) = ap suc (length-slots msg ((s + 1) % 16) n)

  slots-update :
      (msg : ℕ → Msg Cap) (s n e : ℕ) (m : Msg Cap)
      → s < 16
      → n < 16
      → e ≡ (s + n) % 16
      → slots (update msg e m) s (suc n) ≡ slots msg s n ++ m ∷ []
  slots-update msg s zero e m hs hn q = ground arith
  slots-update msg s (suc n) e m hs hn q =
      ap₂ ◌∷◌ (update_ne msg e s m (omega arith))
        (slots-update msg ((s + 1) % 16) n e m (omega arith) (omega arith) (omega arith))

  -- A message put into a queue with room comes last.
  pub pending-put :
      (q : Queue Cap) (m : Msg Cap)
      → IsRing q
      → count q < 15
      → pending (put q mask m) ≡ pending q ++ m ∷ []
  unfolding put
  pending-put q m v room =
      let moved : step_slot q.end mask ≡ (q.end + 1) % 16 = step_slot-eq q.end v.end_in in
      let longer : (step_slot q.end mask + 16 - q.start) % 16 ≡ suc (count q) = omega arith in
      rw longer
        (slots-update q.msg q.start (count q) q.end m v.start_in (omega arith) (omega arith))

  pub slots-shift :
      (msg : ℕ → Msg Cap) (s n : ℕ)
      → n ≢ 0
      → slots msg s n ≡ msg s ∷ slots msg ((s + 1) % 16) (n - 1)
  slots-shift msg s zero h = absurd (h refl)
  slots-shift msg s (suc n) h = ap (λ k. msg s ∷ slots msg ((s + 1) % 16) k) (omega arith)

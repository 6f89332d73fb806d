-- ===== src/Tests/Toy.antt =====
-- A capability machine small enough to compute with, and a kernel of four activations over it.
use cherios.Base.{
  ℕ, ◌+◌, ◌-◌, ◌*◌, ◌%◌, ◌≡◌, refl, ap, sym, Bool, true, false, Option, none, some, [], ◌==◌, ltb,
  if◌then◌else◌, two_64, bit_and, arith,
}
use cherios.Cheri.{Cheri, Laws}
use cherios.Kernel.State.{
  Kernel, Act, Msg, Frame, SchedStatus, alive, waiting, runnable, sync_block, terminated,
}
use cherios.Kernel.Ready.Inv.{IsReady}
use cherios.Kernel.Inv.{IsSound, IsRunning}
use cherios.Kernel.Env.{Layout, Fits}

-- A capability; `sealed_by` is its type if it is sealed.
pub record Toy : Type 0 where
  pub tag : Bool
  pub sealed_by : Option ℕ
  pub base : ℕ
  pub offset : ℕ
  pub len : ℕ
  pub perm : ℕ

abbrev pub toy_null : Toy
toy_null = record { tag = false; sealed_by = none; base = 0; offset = 0; len = 0; perm = 0 }

abbrev pub toy_default : Toy
toy_default = record {
  tag = true;
  sealed_by = none;
  base = 0;
  offset = 0;
  len = two_64 - 1;
  perm = 0xFFFF;
}

abbrev pub is_some : Option ℕ → Bool
is_some none = false
is_some (some t) = true

abbrev pub value : Option ℕ → ℕ
value none = 0
value (some t) = t

abbrev pub seal_as : Toy → ℕ → Option ℕ → Option Toy
seal_as p t none = some (record p { sealed_by = some t })
seal_as p t (some u) = none

abbrev pub unseal_as : Toy → ℕ → Option ℕ → Option Toy
unseal_as p t none = none
unseal_as p t (some u) = if u == t then some (record p { sealed_by = none }) else none

abbrev pub toy : Cheri
toy = record {
  Cap = Toy;
  null = toy_null;
  is_null = λ p. if p.tag then false else (p.base == 0);
  get_default = toy_default;
  get_pcc = toy_default;
  get_base = λ p. p.base;
  get_offset = λ p. p.offset;
  get_len = λ p. p.len;
  get_perm = λ p. p.perm;
  get_type = λ p. value p.sealed_by;
  get_tag = λ p. p.tag;
  get_sealed = λ p. is_some p.sealed_by;
  set_offset = λ p n. record p { offset = n };
  inc_offset = λ p n. record p { offset = (p.offset + n) % two_64 };
  and_perm = λ p n. record p { perm = bit_and p.perm n };
  set_bounds = λ p n.
      if ltb p.len n
      then none
      else some (record p { base = (p.base + p.offset) % two_64; offset = 0; len = n });
  seal = λ p s. seal_as p s.offset p.sealed_by;
  unseal = λ p s. unseal_as p s.offset p.sealed_by;
}

unseal_as-seal_as :
    (p q : Toy) (t : ℕ) (o : Option ℕ)
    → p.sealed_by ≡ o
    → seal_as p t o ≡ some q
    → unseal_as q t q.sealed_by ≡ some p
unseal_as-seal_as p q t none free e =
    let made : record p { sealed_by = some t } ≡ q = cc in
    let back : record p { sealed_by = none } ≡ p =
      ap (λ o. record p { sealed_by = o }) (sym free) in
    let same : (t == t) ≡ true = ground arith in rw (← made, same) (ap some back)
unseal_as-seal_as p q t (some u) taken e = cc

pub toy_Laws : Laws toy
toy_Laws = record {
  default_base = refl;
  default_unsealed = refl;
  get_offset-set_offset = λ p n u h. refl;
  get_base-set_offset = λ p n. refl;
  unseal-seal = λ p s q e. unseal_as-seal_as p q s.offset p.sealed_by refl e;
}

abbrev pub table_at : Layout
table_at = record { acts_base = 0x10000; act_size = 256 }

pub table_at-Fits : Fits table_at
table_at-Fits = record { sized = omega arith; below = omega arith }

-- Activations 1 and 2 may run, 3 waits, 4 is blocked in a call; 1 has the processor.
abbrev pub demo_status : ℕ → SchedStatus
demo_status a =
    if a == 1
    then runnable
    else (if a == 2
        then runnable
        else (if a == 3 then waiting else (if a == 4 then sync_block else terminated)))

abbrev pub demo_act : ℕ → Act Toy
demo_act a = record {
  aid = a;
  status = alive;
  queue_mask = 15;
  sched_status = demo_status a;
  expected_reply = 9;
  act_reference = toy_null;
  act_default_id = toy_null;
  name = [];
}

abbrev pub no_msg : Msg Toy
no_msg = record {
  a0 = 0;
  a1 = 0;
  a2 = 0;
  c3 = toy_null;
  c4 = toy_null;
  c5 = toy_null;
  v0 = 0;
  idc = toy_null;
  c1 = toy_null;
}

-- A capability that is sealed with type `t`
abbrev pub sealed_cap : ℕ → ℕ → Toy
sealed_cap t offset = record toy_default { sealed_by = some t; offset = offset }

-- The frame of an activation that calls number 3 synchronously
abbrev pub demo_frame : Frame Toy
demo_frame = record {
  a0 = 7;
  a1 = 0;
  a2 = 0;
  v0 = 5;
  v1 = 4;
  pc = 0x4000;
  c1 = sealed_cap 3 (0x10000 + 3 * 256);
  c2 = sealed_cap 3 0;
  c3 = toy_null;
  c4 = toy_null;
  c5 = toy_null;
  idc = toy_null;
  pcc = toy_default;
}

abbrev pub demo : Kernel Toy
demo = record {
  acts = demo_act;
  frames = λ a. demo_frame;
  framep = 1;
  queues = λ a. record { start = 0; end = 0; len = 0; msg = λ i. no_msg };
  aqueue = λ a. a - 1;
  squeue_a = λ i. i + 1;
  squeue_a_idx = 0;
  squeue_a_end = 2;
  curr_act = 1;
  next_act = 5;
  act_default_id = toy_default;
  unique = 8;
  int_child = λ i. if i == 2 then 3 else 0;
  im = 0xFF;
  last_timer = 0;
  compare = 0;
  entered = 0;
}

demo-IsReady : IsReady demo
demo-IsReady = record {
  slot = λ i h. omega arith;
  listed = λ i h. ground arith;
  present = λ a h. ground arith;
  known = λ a h. ground arith;
  room = omega arith;
}

pub demo-IsSound : IsSound demo
demo-IsSound = record {
  ready = demo-IsReady;
  mail = record {
    rings = λ a h. (refl, record { start_in = omega arith; end_in = omega arith });
    quiet = λ a h. refl;
    held = λ a h. ground arith;
  };
  wired = λ i h. ground arith;
}

pub demo-IsRunning : IsRunning demo
demo-IsRunning = record { sound = demo-IsSound; framed = refl; runs = refl }

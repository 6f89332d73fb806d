-- ===== src/Libuser/Server.antt =====
-- libuser/src/msg.S, with the tables of msg_default.c: how a service answers a message. A method
-- is a C function: it takes its arguments from the registers and leaves its result there. Words
-- that stand for an `int` have the upper half that the sign gives.
pub mod Served
pub mod Unknown
use cherios.Base.{
  ℕ, ◌+◌, ◌-◌, ◌%◌, ◌^◌, Bool, List, [], ◌∷◌, Option, none, some, get_elem?, Res, ok, halt, trap,
  ◌>>=◌, leb, if◌then◌else◌, two_32, two_64,
}
use cherios.Cheri.{Cheri}
use cherios.Kernel.State.{Kernel, Frame, current, set_current}
use cherios.Kernel.Env.{Layout}
use cherios.Kernel.Ccall.{kernel_ccall, kernel_creturn}

-- A service's own variables, and `sync_token` of libuser/src/msg.c.
pub record Server (Cap S : Type 0) : Type 0 where
  pub own : S
  pub sync_token : Cap

abbrev pub Method : Type 0 → Type 0 → Type 0
Method Cap S = Frame Cap → Server Cap S → Res (Frame Cap × Server Cap S)

-- `msg_methods` and `ctrl_methods`; their lengths are `msg_methods_nb` and `ctrl_methods_nb`.
pub record Methods (Cap S : Type 0) : Type 0 where
  pub msg_methods : List (Method Cap S)
  pub ctrl_methods : List (Method Cap S)

-- The register of an `int` that is given as its 32-bit pattern, and back.
abbrev pub sign_extend : ℕ → ℕ
sign_extend n = if leb (2 ^ 31) n then n + (two_64 - two_32) else n

abbrev pub as_int : ℕ → ℕ
as_int word = word % two_32

-- A jump through NULL, and a function without arguments and result such as `ctor_null`
abbrev pub null_method : {Cap S : Type 0} → Method Cap S
null_method f s = halt trap

abbrev pub void_method : {Cap S : Type 0} → Method Cap S
void_method f s = ok (f, s)

-- The tables that a program has which defines none.
unfoldable pub msg_default : {Cap S : Type 0} → Methods Cap S
msg_default = record { msg_methods = []; ctrl_methods = [] }

module _ (c : Cheri) {S : Type 0} where
  open c use {Cap}

  -- From `call` on: the method, or `overflow`.
  unfoldable pub enter : Option (Method Cap S) → Method Cap S
  enter (some method) f s = method f (record s { sync_token = f.c1 })
  enter none f s = ok (record f { v0 = 0; v1 = 0; c3 = c.null }, s)

  -- The method that a message asks for.
  unfoldable pub select : Methods Cap S → ℕ → Option (Method Cap S)
  select methods v0 =
      if leb (2 ^ 63) v0
      then get_elem? methods.ctrl_methods (two_64 - v0)
      else get_elem? methods.msg_methods v0

  -- Up to the `creturn`.
  unfoldable pub msg_entry : Methods Cap S → Method Cap S
  unfolding enter select
  msg_entry methods f s = do
    (g, s') ← enter (select methods f.v0) f s
    ok (record g { c1 = s'.sync_token }, s')

  -- A client's call as a whole: its CCall, the service's answer to the message that it then runs
  -- with, and the service's CReturn.
  unfoldable pub exchange :
      Layout → Methods Cap S → Kernel Cap → Server Cap S → Res (Kernel Cap × Server Cap S)
  unfolding msg_entry
  exchange l methods k s = do
    k1 ← kernel_ccall c l k
    (g, s') ← msg_entry methods (current k1) s
    k2 ← kernel_creturn c (set_current k1 g)
    ok (k2, s')

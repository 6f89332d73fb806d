-- ===== src/Sockets/Service.antt =====
-- sockets/src/main.c: the sockets' methods, as messages reach them. `malloc` and the kernel's answer
-- to `act_seal_id` are parameters, and so is the `int` that a cookie points to.
use mathlib.Core.Option
use cherios.Base.{
  ℕ, ◌+◌, ◌%◌, [], ◌∷◌, update, Option, none, some, Res, ok, halt, assertion, ◌>>=◌, if◌then◌else◌,
  two_32,
}
use cherios.Cheri.{Cheri}
use cherios.Kernel.State.{Frame}
use cherios.Libuser.Server.{Method, Methods, sign_extend, as_int, null_method, void_method}
use cherios.Sockets.{Net, socket, bind, connect, recfrom, sendto}

-- The variables of sockets.c and `oid`, and the integers that `new_identifier` has allocated.
pub record Variables (Cap : Type 0) : Type 0 where
  pub net : Net Cap
  pub oid : ℕ
  pub cells : ℕ → ℕ

-- What the service calls and does not implement; no cell is NULL.
pub record Host (Cap : Type 0) : Type 0 where
  pub malloc : Variables Cap → Option ℕ
  pub seal_id : ℕ → Cap
  pub cell_of : Cap → Option ℕ

module _ (c : Cheri) where
  open c use {Cap}

  -- A `void *` that may be NULL
  abbrev pub as_msg : Cap → Option Cap
  as_msg p = if c.is_null p then none else some p

  abbrev pub msg_ptr : Option Cap → Cap
  msg_ptr none = c.null
  msg_ptr (some p) = p

  module _ (h : Host Cap) where
    -- `get_curr_cookie()` and the number behind it
    abbrev pub cookie : Variables Cap → Cap → Option ℕ
    cookie s idc = Option.map s.cells (h.cell_of idc)

    unfoldable pub new_identifier : Method Cap (Variables Cap)
    new_identifier f s = elim (h.malloc s.own) [
      | none ↦ halt assertion
      | some i ↦ ok (
        record f { c3 = h.seal_id i },
        record s {
          own = record s.own {
            oid = (s.own.oid + 1) % two_32;
            cells = update s.own.cells i s.own.oid;
          };
        },
      )
    ]

    -- A method that returns an `int`, from the cookie and the registers.
    unfoldable pub int_operation :
        (Net Cap → Option ℕ → Frame Cap → Res (ℕ × Net Cap)) → Method Cap (Variables Cap)
    int_operation operation f s = do
      (ret, n) ← operation s.own.net (cookie s.own f.idc) f
      ok (record f { v0 = sign_extend ret }, record s { own = record s.own { net = n } })

    unfoldable pub recfrom_method : Method Cap (Variables Cap)
    recfrom_method f s = do
      (m, n) ← recfrom s.own.net (cookie s.own f.idc) (as_int f.a0)
      ok (record f { c3 = msg_ptr m }, record s { own = record s.own { net = n } })

    unfoldable pub socket_methods : Methods Cap (Variables Cap)
    unfolding new_identifier int_operation recfrom_method
    socket_methods = record {
      msg_methods =
          int_operation (λ n k f. socket n k)
          ∷ int_operation (λ n k f. bind n (as_int f.a0) (as_int f.a1))
          ∷ int_operation (λ n k f. connect n (as_int f.a0) (as_int f.a1))
          ∷ recfrom_method
          ∷ int_operation (λ n k f. sendto n k (as_int f.a0) (as_msg f.c3))
          ∷ [];
      ctrl_methods = null_method ∷ new_identifier ∷ void_method ∷ [];
    }

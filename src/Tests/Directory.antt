-- ===== src/Tests/Directory.antt =====
-- Calls of services on the demonstration kernel: activation 3 is a name server.
use cherios.Base.{
  ◌+◌, ◌*◌, ◌%◌, ◌^◌, ◌≡◌, ◌≢◌, ◌⊎◌, [], ◌∷◌, ok, halt, panic, assertion, none, some, refl, ◌∙◌,
  arith, two_32,
}
use cherios.Kernel.State.{Kernel, current, set_current}
use cherios.Kernel.Inv.{IsRunning}
use cherios.Kernel.Act.{kernel_skip_instr}
use cherios.Kernel.Ccall.{token_caller, token_unique}
use cherios.Kernel.Ccall.Rpc.{number}
use cherios.Namespace.{ns_init, ns_register, validate_idx, validate_act_caps, ns_register_core}
use cherios.Namespace.Ports.{register_all}
use cherios.Namespace.Service.{Table, ns_methods}
use cherios.Namespace.Directory.{register-Serves, namespace_register-get_ref}
use cherios.Libuser.{ccall_4}
use cherios.Libuser.Client.{past_call}
use cherios.Libuser.Namespace.{namespace_register, namespace_get_ref}
use cherios.Libuser.Server.{Server, select, exchange}
use cherios.Libuser.Server.Served.{ccall_4-served}
use cherios.Libuser.Server.Unknown.{unknown_method-halts}
use cherios.Tests.Clients.{call_of, frame_of, ns_three, id_three, bare_token, new_token}
use cherios.Tests.Toy.{Toy, toy, toy_null, toy_default, toy_Laws, table_at, demo, sealed_cap}

-- A service's reference and identifier, and another's
abbrev ours : Toy
ours = sealed_cap 7 0

abbrev theirs : Toy
theirs = sealed_cap 8 0

-- Port 5 is registered.
abbrev empty_table : Table toy
empty_table = ns_init toy

registers_five : (ns_register toy empty_table 5 ours ours).0 ≡ 0
unfolding ns_register validate_idx validate_act_caps ns_register_core ns_init
registers_five = refl

ccall_4-served_example :
    (k2 : Kernel Toy) × (exchange toy table_at
        (ns_methods toy)
        (set_current demo (frame_of 0 5 ours ours))
        (record { own = empty_table; sync_token = toy_null })
      ≡ ok (
        k2,
        record { own = (ns_register toy empty_table 5 ours ours).1; sync_token = new_token },
      ))
    × IsRunning k2
    × (k2.curr_act ≡ 1)
    × (((ccall_4 toy (current demo) ns_three id_three 0 5 0 0 ours ours toy_null).returns
            (current k2)).0
          % two_32
        ≡ (ns_register toy empty_table 5 ours ours).0)
ccall_4-served_example =
    ccall_4-served toy toy_Laws table_at (ns_methods toy) demo ns_three id_three 0 5 0 0 ours ours
      toy_null (frame_of 0 5 ours ours) 3 toy_default bare_token new_token toy_null empty_table
      (ns_register toy empty_table 5 ours ours).1 (λ v. v.0 % two_32)
      (ns_register toy empty_table 5 ours ours).0 (call_of 0 5 ours ours)
      (register-Serves toy empty_table 5 (omega arith) toy_default ours ours)

-- Activation 1 registers, someone else tries to, and activation 1 asks.
registered :
    (k2 : Kernel Toy) × (s2 : Server Toy (Table toy)) × (exchange toy table_at
        (ns_methods toy)
        (set_current demo (frame_of 0 5 ours ours))
        (record { own = empty_table; sync_token = toy_null })
      ≡ ok (k2, s2))
    × ((namespace_register toy (current demo) ns_three id_three 5 ours ours).returns (current k2)
        ≡ 0)
unfolding namespace_register
registered =
    let (k2, done, _, _, value) =
      ccall_4-served toy toy_Laws table_at (ns_methods toy) demo ns_three id_three 0 5 0 0 ours ours
        toy_null (frame_of 0 5 ours ours) 3 toy_default bare_token new_token toy_null empty_table
        (ns_register toy empty_table 5 ours ours).1 (λ v. v.0 % two_32)
        (ns_register toy empty_table 5 ours ours).0 (call_of 0 5 ours ours)
        (register-Serves toy empty_table 5 (omega arith) toy_default ours ours) in
    (k2, _, done, value ∙ registers_five)

namespace_register-get_ref_example :
    let later = register_all toy registered.1.own ((5, theirs, theirs) ∷ []) in
    (k3 : Kernel Toy) × (exchange toy table_at
        (ns_methods toy)
        (set_current demo (frame_of 1 5 toy_null toy_null))
        (record { own = later; sync_token = new_token })
      ≡ ok (k3, record { own = later; sync_token = new_token }))
    × (k3.curr_act ≡ 1)
    × ((namespace_get_ref toy (current demo) ns_three id_three 5).returns (current k3) ≡ ours)
namespace_register-get_ref_example =
    namespace_register-get_ref toy toy_Laws table_at 5 (omega arith) demo registered.0 demo ns_three
      id_three ours ours ns_three id_three (frame_of 0 5 ours ours) (frame_of 1 5 toy_null toy_null)
      3 3 toy_default bare_token new_token toy_null toy_default bare_token new_token new_token
      empty_table registered.1 ((5, theirs, theirs) ∷ []) (call_of 0 5 ours ours) registered.2
      registered.3 refl (call_of 1 5 toy_null toy_null)

-- Method 9 of the name server, which has answered call 7 of activation 4.
abbrev old_token : Toy
old_token = record bare_token { offset = 4 * 2 ^ 32 + 7 }

abbrev old_sealed : Toy
old_sealed = record old_token { sealed_by = some 42000 }

abbrev answered_before : Server Toy (Table toy)
answered_before = record { own = empty_table; sync_token = old_sealed }

no_ninth : select toy (ns_methods toy) 9 ≡ none
unfolding select ns_methods
no_ninth = refl

older_call :
    token_unique (toy.get_offset old_token)
    ≢ number toy
        (past_call toy demo (frame_of 9 5 toy_null toy_null))
        3
        toy_default
        bare_token
        new_token
unfolding token_unique kernel_skip_instr
older_call e = omega arith

not_expected :
    (demo.acts (token_caller (toy.get_offset old_token))).expected_reply
    ≢ token_unique (toy.get_offset old_token)
unfolding token_unique token_caller
not_expected e = omega arith

unknown_method-halts_example :
    (exchange toy table_at
        (ns_methods toy)
        (set_current demo (frame_of 9 5 toy_null toy_null))
        answered_before
      ≡ halt panic)
    ⊎ (exchange toy table_at
          (ns_methods toy)
          (set_current demo (frame_of 9 5 toy_null toy_null))
          answered_before
        ≡ halt assertion)
unknown_method-halts_example =
    unknown_method-halts toy toy_Laws table_at demo ns_three id_three 9 5 0 0 toy_null toy_null
      toy_null (call_of 9 5 toy_null toy_null) (ns_methods toy) answered_before old_token no_ninth
      refl refl older_call (λ e. absurd (not_expected e))

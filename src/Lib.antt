-- ===== src/Lib.antt =====
-- A model of CheriOS, a microkernel for the CHERI capability machine: its kernel, the ELF loader
-- and the services that run on it, up to a program's calls of them.
--
-- The kernel (kernel/) runs activations, which call each other through sealed capabilities. A
-- CCall puts a message into the callee's queue and may switch to it; a CReturn answers a
-- synchronous call by a sealed token, or waits for the next message. System calls register,
-- revoke and terminate activations; interrupts become messages; the timer switches in turn. The
-- memory manager (memmgt/), the name server (namespace/), init (boot/src/init/), the sockets
-- (sockets/), the block driver (virtio-blk/), the disk layer of the file system (fatfs/) and the
-- console (uart/) are activations that keep state of their own. They interact with the kernel by
-- messages only, so each is modelled by its state and its methods. A program reaches them by the
-- user library (libuser/), whose part is modelled on both sides: the client's stubs, and the loop
-- in which a service takes a message, calls the method that it asks for, and returns.
--
-- Base: tests into Bool, the results Res (a value, or a halt: a failed assertion, a panic, a trap,
--   an access out of bounds, a loop without end), arrays as functions, lists over the native
--   numbers, the pigeonhole principle.
-- Cheri: the capability instructions (the `cheri_` macros of include/cheric.h), a record of
--   operations that all models take as a parameter, and the laws that the theorems use.
-- Kernel/State: act_t, msg_t, queue_t, the register frames and the static variables of the
--   kernel, one record.
-- Kernel/Ready, Kernel/Sched: kernel/src/sched.c. Ready/Inv has the ready queue's invariant,
--   Sched/Resume what sched_reschedule chooses, Sched/Turns the order of the turns.
-- Kernel/Msg: kernel/src/msg.c. Msg/Ring sees a queue as the list of its messages, Msg/Fifo has
--   msg_push and Msg/Pop msg_pop.
-- Kernel/Inv: soundness of the kernel between operations: the ready queue lists exactly the
--   activations that may run, each waiting activation's queue is empty, each schedulable one's is
--   not, and interrupts belong to activations that exist.
-- Kernel/Env: kernel/include/kutils.h, VCAP of include/cheric.h, and where kernel_acts lies.
-- Kernel/Act: kernel/src/act.c. Act/Life has registration, Act/Wait and Act/Blocked act_wait,
--   Act/Terminate the end of an activation, Act/Start act_init.
-- Kernel/Ccall: kernel/src/ccall.c. Ccall/Deliver and Ccall/Call have the calls, Ccall/Reply the
--   answers, Ccall/Answer the CReturn as a whole, Ccall/Rpc a synchronous call from the caller to
--   the callee, Ccall/Roundtrip the call with its answer, Ccall/Silent a CReturn without a token.
-- Kernel/Interrupts: kernel/src/interrupts.c and timer.c. Interrupts/Numbers has a number
--   past the table, Interrupts/Timer the timer's loop, Interrupts/Passing the handler as a whole.
--   An interrupt keeps its owner by Interrupts/Standing, Ccall/Standing, Syscalls/Standing and
--   Exceptions/Owners.
-- Kernel/Syscalls: kernel/src/syscalls.c. Syscalls/Effects, Safe and Dispatch have the calls one
--   by one, Syscalls/Benign all of them.
-- Kernel/Init: kernel/src/init.c.
-- Kernel/Exceptions: kernel/src/kernel_exceptions.c. Exceptions/Safe has one entry into the
--   kernel, Exceptions/Reach all runs from start-up on.
-- Memmgt/Mmap: memmgt/src/mmap.c. Mmap/Chunks is the abstract allocator on a list of chunks,
--   Mmap/Fit relates the book of pages to it, Mmap/Service has the operations,
--   Mmap/Cycle a mapping that is made and given back. Memmgt/Methods is memmgt/src/main.c, and
--   Memmgt/Client has the calls of its clients.
-- Namespace: namespace/src/namespace.c. Namespace/Service is namespace/src/main.c, and
--   Namespace/Directory has the calls of its clients.
-- Boot/Alloc: boot/src/init/alloc.c. Alloc/Overlap says where an allocation and its bounds lie.
-- Boot/Modules: boot/src/init/init.c and init_utils.c. Modules/Order has the order of loading,
--   Modules/Waiting what init waits for.
-- Boot/Launch: boot/src/init/init_utils.c, from a file to an activation. Launch/Loads says what a
--   load has done, Launch/Handed who gets the name server, Launch/Overlap where the stacks lie.
-- Boot/Glue: boot/src/init/glue.c, with register_ns of memmgt/src/main.c.
-- Boot/Elf: boot/src/elf_loader.c. Elf/Image says what is in memory afterwards.
-- Sockets: sockets/src/sockets.c. Sockets/Service is sockets/src/main.c, Sockets/Client
--   prga/src/sockets.c, Sockets/Waiting says how long a message waits, and Sockets/Passing follows
--   it from a program to another.
-- Virtio: virtio-blk/src/virtio_blk.c. Virtio/Requests follows a request to its interrupt,
--   Virtio/Init and Virtio/Setup have vblk_init, Virtio/Lifetime what a session can serve.
--   Virtio/Service is virtio-blk/src/main.c, Virtio/Client include/virtioblk.h, and
--   Virtio/Deferred follows a client's read to its answer.
-- Disk: fatfs/src/diskio.c, in both builds. Disk/Ram has the build with an array.
-- Uart, Uart/Altera, Uart/Malta: uart/src. Uart/Output says what is sent.
-- Libuser: libuser/src/object.c. Libuser/Client joins a program's call with the kernel's part,
--   Libuser/Namespace and Libuser/Mmap are namespace.c and mmap.c of libuser/src.
--   Libuser/Interrupt is interrupt.c and ssleep.c there; Interrupt/Answers has what its calls
--   give, Interrupt/Owned who owns an interrupt.
-- Libuser/Server: libuser/src/msg.S, msg.c and msg_default.c. Server/Served has a call that the
--   service serves, from the stub to its result, Server/Unknown one of a method it does not have.
-- Tests: concrete capabilities and states on which the theorems are applied.
--
-- An operation has its C name. An object that C reaches through a pointer is an entry of a table
-- in the state, a pointer that the code checks for NULL an Option, and C's unsigned arithmetic is
-- written out modulo a power of two. kernel_panic and kernel_freeze are the halt `panic`,
-- kernel_assert and assert the halt `assertion`, a capability instruction that fails `trap`.
-- An `int` is the number that its 32 bits show.
--
-- Loops: sched_reschedule has fuel for 34 rounds, and in a sound kernel two are enough, since the
-- ready queue lists only what may run. The search of __mmap has fuel for one page more than there
-- are, and each round moves on by a page at least. The timer's loop takes one value of the count
-- register a round, from a list. A wait for the serial line takes fuel, and more of it than the
-- device stays busy is enough.
--
-- Not modelled: assembly but for msg.S, the coprocessors beyond the registers named, printing and
-- dumps (the kernel's and the boot loader's copies of the serial drivers among them), the rest of the
-- boot loader, the start of a program and the waits of the user library, third-party code (FatFs,
-- dlmalloc, the BSD allocator of memmgt/, the UFS reader) and the benchmarks.
pub mod Base
pub mod Cheri
pub mod Kernel
pub mod Memmgt
pub mod Namespace
pub mod Boot
pub mod Sockets
pub mod Virtio
pub mod Disk
pub mod Uart
pub mod Libuser
pub mod Tests

-- ===== src/Tests/Boot.antt =====
-- A run of the kernel on a small machine: its start, the first round, and a first call.
use bsprakt_os.Base.{
  ℕ, suc, ◌+◌, true, false, ◌≡◌, refl, sym, ap, ◌∙◌, subst, ◌==◌, if◌then◌else◌, inr, [], ◌∷◌,
  arith, Outcome, ok, update,
}
use bsprakt_os.IntrusiveList.Store.{Lists, IsStore}
use bsprakt_os.Kernel.{Kernel}
use bsprakt_os.Scheduler.{scheduler_exists_input_waiting_thread, normal, scheduler_cleanup_thread}
use bsprakt_os.Scheduler.RoundRobin.{scheduler_round_robin}
use bsprakt_os.Scheduler.Threads.{created}
use bsprakt_os.Scheduler.Boot.{scheduler_initialise}
use bsprakt_os.Scheduler.Boot.Circle.{nodes_from, first_lists}
use bsprakt_os.Scheduler.Boot.State.{IsStatic, scheduler_initialise-IsKernel}
use bsprakt_os.Scheduler.Rounds.{scheduler_round_robin-Switched}
use bsprakt_os.Scheduler.Slots.State.{IsKernel}
use bsprakt_os.Syscalls.{reset_timer, Host, syscall_create_thread, syscall_create_process}
use bsprakt_os.Syscalls.Waits.{get_running_thread-ok}
use bsprakt_os.Interrupts.{irq_interrupt_handler, receive_pending, hand_out}
use bsprakt_os.Interrupts.Runs.{Run, start, outside, irq}
use bsprakt_os.Timer.{stalltimer_pending, systimer_pending}
use bsprakt_os.Scheduler.Lists.{empty_at}
use bsprakt_os.Syscalls.Runs.System.{IsSystem, ok_injective}
use bsprakt_os.Interrupts.Runs.Reachable.{Run-IsSystem, Run-calls}
use bsprakt_os.Ktiming.{timing}
use bsprakt_os.Tests.Scene.{kernel_on}

-- The heads of the lists as they are built, and all nodes cleared.
abbrev image : Kernel
image = kernel_on (record { next = λ p. if p == 5 then 16 else 0; previous = λ p. 0 })

image-IsStatic : IsStatic image.nodes
image-IsStatic = record { next = λ p l. refl; previous = λ p l. refl }

abbrev host : Host
host = record { exit_thread = 777; timing = timing 100; send_rounds = 3 }

-- The kernel that an outcome has, if it has one.
abbrev result : Outcome Kernel → Kernel
result (ok k) = k
result Outcome.panic = image
result Outcome.out_of_fuel = image
result Outcome.undefined = image

result-ok : {k : Kernel} (o : Outcome Kernel) → o ≡ ok k → o ≡ ok (result o)
result-ok o e = e ∙ ap (λ o. ok (result o)) (sym e)

unfoldable booted : Kernel
booted = result (scheduler_initialise 65536 5 777 888 image)

booted-ok : scheduler_initialise 65536 5 777 888 image ≡ ok booted
unfolding booted
booted-ok =
    result-ok (scheduler_initialise 65536 5 777 888 image)
      (scheduler_initialise-IsKernel 65536 5 777 888 image refl image-IsStatic).1

abbrev booted_lists : Lists
booted_lists = created 0 0 (nodes_from 31 1) first_lists

booted-IsKernel : IsKernel booted booted_lists
booted-IsKernel =
    let (k, e, w, _) = scheduler_initialise-IsKernel 65536 5 777 888 image refl image-IsStatic in
    subst (λ k. IsKernel k booted_lists) (ok_injective (sym e ∙ booted-ok)) w

-- The system timer has matched, and nothing else is pending.
abbrev ticking : Kernel
ticking = record booted {
  timer = record { clo = λ i. 50 + i; c1 = 0; c3 = 0; m1 = true; m3 = false };
  irq_pending_2 = 0;
}

-- The first program runs after that interrupt.
unfoldable running : Kernel
running = result (scheduler_round_robin normal ticking)

abbrev running_lists : Lists
running_lists = update (update booted_lists 1 []) 4 (16 ∷ [])

running-ok :
    (scheduler_round_robin normal ticking ≡ ok running)
    × IsStore running.nodes running_lists
    × (running.irq_pending_2 ≡ 0)
unfolding running
running-ok =
    let (k, s, e) =
      scheduler_round_robin-Switched normal ticking booted_lists 16 [] [] booted-IsKernel.store
        booted-IsKernel.threads refl refl tt in
    let f = result-ok (scheduler_round_robin normal ticking) e in
    let same = ok_injective (sym e ∙ f) in
    (
      f,
      subst (λ k. IsStore k.nodes running_lists) same s.lists,
      subst (λ k. k.irq_pending_2 ≡ 0) same s.pending,
    )

irq-steps :
    (fuel : ℕ) (k k1 : Kernel)
    → stalltimer_pending k.timer ≡ false
    → systimer_pending k.timer ≡ true
    → scheduler_round_robin normal k ≡ ok k1
    → receive_pending (reset_timer k1) ≡ ok (reset_timer k1)
    → scheduler_exists_input_waiting_thread (reset_timer k1) ≡ ok false
    → irq_interrupt_handler (suc fuel) k ≡ ok (reset_timer k1)
unfolding irq_interrupt_handler hand_out
irq-steps fuel k k1 a b c d e = rw (a, b, c, d, e) refl

nothing_received : receive_pending (reset_timer running) ≡ ok (reset_timer running)
unfolding receive_pending
nothing_received = rw running-ok.2 refl

nobody_waits : scheduler_exists_input_waiting_thread (reset_timer running) ≡ ok false
unfolding scheduler_exists_input_waiting_thread
nobody_waits = rw (empty_at running-ok.1 3 (omega arith) [] refl) refl

irq-ok : irq_interrupt_handler 1 ticking ≡ ok (reset_timer running)
unfolding stalltimer_pending systimer_pending
irq-ok = irq-steps 0 ticking running refl refl running-ok.0 nothing_received nobody_waits

-- It asks for something, with 7 in every register.
abbrev asking : Kernel
asking = record (reset_timer running) {
  frame = record { general = λ i. 7; sp = 1; lr = 2; pc = 3 };
}

ticking_run : Run host 65536 5 888 ticking
ticking_run =
    outside {k = booted} (start image refl image-IsStatic booted-ok)
      (record { nodes = refl; blocks = refl; slots = refl })

asking_run : Run host 65536 5 888 asking
asking_run =
    outside {k = reset_timer running} (irq {k = ticking} 1 ticking_run irq-ok)
      (record { nodes = refl; blocks = refl; slots = refl })

run_example : (l : Lists) × IsSystem asking l
run_example = Run-IsSystem {host = host} {tables = 65536} {halt = 5} {user_main = 888} asking_run

calls_example :
    ((k' : Kernel) × (scheduler_cleanup_thread asking ≡ ok k'))
    × ((k' : Kernel) × (syscall_create_thread 777 asking ≡ ok k'))
    × ((k' : Kernel) × (syscall_create_process 777 asking ≡ ok k'))
calls_example =
    Run-calls {host = host} 0 asking_run
      (record {
        runs = get_running_thread-ok asking running_lists 0 [] running-ok.1 refl;
        user = omega arith;
      })
      (record { fits = omega arith; given = inr (ground arith); apart = λ t h. inr (omega arith) })

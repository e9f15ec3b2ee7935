-- ===== src/Scheduler/Waiting.antt =====
-- kernel/scheduler.c: threads that wait for input or for the timer.
use bsprakt_os.Base.{
  ℕ, ◌≡◌, ◌≢◌, List, [], ◌∷◌, ◌++◌, arith, ◌∈◌, ok, update, erase, subst, sym, ap, ◌∙◌,
}
use bsprakt_os.IntrusiveList.{Ptr, Heap}
use bsprakt_os.IntrusiveList.Store.{
  IsHead, Lists, IsStore, length-le_node_end, remove_lem, insert_sorted_lem, InNone-erase,
}
use bsprakt_os.IntrusiveList.Ring.Insert.{inserted}
use bsprakt_os.Timer.{stalltimer_interrupt_at, stalltimer_reset_pending_interrupt}
use bsprakt_os.Timer.Errors.{success}
use bsprakt_os.Kernel.{
  Kernel, ready_list, stall_waiting_list, input_waiting_list, scheduler_node, container_of,
}
use bsprakt_os.Scheduler.{
  scheduler_ignore_thread_until_character_input, scheduler_unblock_first_input_waiting_thread,
  scheduler_adjust_stall_timer, stall, scheduler_stall_cmp, set_result, list_rounds, move_to_end,
}
use bsprakt_os.Scheduler.Lists.{moved, move_to_end-moved, first_at, empty_at}

pub IsHead-ready : IsHead ready_list
IsHead-ready = omega arith

pub IsHead-stall : IsHead stall_waiting_list
IsHead-stall = omega arith

pub IsHead-input : IsHead input_waiting_list
IsHead-input = omega arith

-- A ready thread that asks for a character goes to the end of the threads that wait for input, and
-- nothing else of the kernel's state changes.
pub ignore_until_input-moved :
    (k : Kernel) (l : Lists) (tid : ℕ)
    → IsStore k.nodes l
    → scheduler_node tid ∈ l ready_list
    → (g : Heap) × (scheduler_ignore_thread_until_character_input tid k
        ≡ ok (record k { nodes = g }))
      × IsStore g (moved ready_list input_waiting_list (scheduler_node tid) l)
unfolding scheduler_ignore_thread_until_character_input
ignore_until_input-moved k l tid s i =
    let (g, e, w) =
      move_to_end-moved s ready_list input_waiting_list (scheduler_node tid) IsHead-ready
        IsHead-input (omega arith) i in
    (g, rw e, w)

erase_first : (n : Ptr) (xs : List Ptr) → erase n (n ∷ xs) ≡ xs
erase_first n xs = ground arith

-- The lists after the first node of a list has moved to the end of another one.
abbrev pub advanced : Ptr → Ptr → Ptr → List Ptr → Lists → Lists
advanced from to n rest l = update (update l from rest) to (l to ++ n ∷ [])

pub advance :
    {h : Heap} {l : Lists} (from to n : Ptr) (rest : List Ptr)
    → IsHead from
    → IsHead to
    → to ≢ from
    → IsStore h l
    → l from ≡ n ∷ rest
    → (g : Heap) × (move_to_end from to n h ≡ ok g) × IsStore g (advanced from to n rest l)
advance {l} from to n rest hf ht ne s e =
    let (g, f, w) =
      move_to_end-moved s from to n hf ht ne (subst (λ t. n ∈ t) (sym e) (ground arith)) in
    (
      g,
      f,
      subst (λ t. IsStore g (update (update l from t) to (l to ++ n ∷ [])))
          (ap (erase n) e ∙ erase_first n rest) w,
    )

-- A character goes to the thread that has waited longest: it is the result of its call, and the
-- thread becomes the last ready one.
pub unblock_first-advanced :
    (k : Kernel) (l : Lists) (n : Ptr) (rest : List Ptr) (ch : ℕ)
    → IsStore k.nodes l
    → l input_waiting_list ≡ n ∷ rest
    → (g : Heap) × (scheduler_unblock_first_input_waiting_thread ch k
        ≡ ok (set_result (container_of n) ch (record k { nodes = g })))
      × IsStore g (advanced input_waiting_list ready_list n rest l)
unfolding scheduler_unblock_first_input_waiting_thread
unblock_first-advanced k l n rest ch s e =
    let (g, f, w) =
      advance input_waiting_list ready_list n rest IsHead-input IsHead-ready (omega arith) s e in
    (g, rw (first_at s input_waiting_list IsHead-input n rest e, f), w)

-- Stalling takes the thread out of the ready list and inserts it among the stalled ones as
-- `k_insert_sorted` does.
pub stall-inserted :
    (k : Kernel) (l : Lists) (tid : ℕ)
    → IsStore k.nodes l
    → scheduler_node tid ∈ l ready_list
    → (g : Heap) × (stall tid k ≡ ok (record k { nodes = g }))
      × IsStore g (
          update
            (update l ready_list (erase (scheduler_node tid) (l ready_list)))
            stall_waiting_list
            (inserted (scheduler_stall_cmp k.blocks) (scheduler_node tid) (l stall_waiting_list)))
unfolding stall
stall-inserted k l tid s i =
    let (h, e, t) = remove_lem s ready_list (scheduler_node tid) IsHead-ready i in
    let len = length-le_node_end s stall_waiting_list IsHead-stall in
    let (g, f, w) =
      insert_sorted_lem t stall_waiting_list (scheduler_node tid) IsHead-stall
        (scheduler_stall_cmp k.blocks) list_rounds (omega arith)
        (s.nodes ready_list (scheduler_node tid) i)
        (InNone-erase s ready_list (scheduler_node tid) IsHead-ready i) in
    (g, rw (e, f), w)

pub adjust-nil :
    (k : Kernel) (l : Lists)
    → IsStore k.nodes l
    → l stall_waiting_list ≡ []
    → scheduler_adjust_stall_timer k
      ≡ ok (success, record k { timer = stalltimer_reset_pending_interrupt k.timer })
unfolding scheduler_adjust_stall_timer
adjust-nil k l s e = rw (empty_at s stall_waiting_list IsHead-stall [] e)

-- The deadline of a stalled thread.
abbrev pub deadline : Kernel → Ptr → ℕ
deadline k n = (k.blocks (container_of n)).stall_until

pub adjust-cons :
    (k : Kernel) (l : Lists) (n : Ptr) (rest : List Ptr)
    → IsStore k.nodes l
    → l stall_waiting_list ≡ n ∷ rest
    → scheduler_adjust_stall_timer k
      ≡ ok (
        (stalltimer_interrupt_at (deadline k n) k.timer).0,
        record k { timer = (stalltimer_interrupt_at (deadline k n) k.timer).1 },
      )
unfolding scheduler_adjust_stall_timer
adjust-cons k l n rest s e = rw (
  empty_at s stall_waiting_list IsHead-stall (n ∷ rest) e,
  first_at s stall_waiting_list IsHead-stall n rest e,
)

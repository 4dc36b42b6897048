-- ===== src/BlockingQueue/Tests.antt =====
-- BlockingQueue.h on a queue of message types with one urgent element, over a pipe that holds 9 bytes.
use tin_locus.Base.{refl, [], ◌∷◌, arith}
use tin_locus.Message.{MessageType}
use tin_locus.PipeBuffer.{PipeOs, PipeBuffer, counter}
use tin_locus.BlockingQueue.{BlockingQueue, push, priority_push, pop_for}
use tin_locus.BlockingQueue.Invariant.{
  IsValid, view, Pushes, PriorityPushes, push-Pushes, priority_push-PriorityPushes,
}
use tin_locus.BlockingQueue.Pop.{PopsFor, pop_for-PopsFor}

abbrev os : PipeOs
os = counter 9

abbrev none_type : MessageType
none_type = MessageType.empty

abbrev two_elements : BlockingQueue os none_type
two_elements = record {
  queue = MessageType.update ∷ [];
  priority = (64, MessageType.add_client) ∷ [];
  max_queue_size = 3;
  pipe_buffer = record { pipe_read_fd = 3; pipe_write_fd = 4; pipe = 2 };
}

abbrev fresh_pipe : PipeBuffer os
fresh_pipe = record { pipe_read_fd = 5; pipe_write_fd = 6; pipe = 0 }

two_elements-IsValid : IsValid os none_type two_elements
two_elements-IsValid = record { signalled = refl; bounded = omega arith }

push-Pushes_example :
    Pushes os none_type MessageType.close two_elements
      (push os none_type MessageType.close two_elements)
push-Pushes_example = push-Pushes os none_type MessageType.close two_elements two_elements-IsValid

priority_push-PriorityPushes_example :
    PriorityPushes os none_type 32 MessageType.close two_elements
      (priority_push os none_type 32 MessageType.close two_elements)
priority_push-PriorityPushes_example =
    priority_push-PriorityPushes os none_type 32 MessageType.close two_elements two_elements-IsValid

pop_for-PopsFor_example :
    PopsFor os none_type
      (view os none_type two_elements)
      two_elements
      (pop_for os none_type two_elements)
pop_for-PopsFor_example = pop_for-PopsFor os none_type two_elements two_elements-IsValid

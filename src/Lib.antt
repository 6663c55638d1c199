-- ===== src/Lib.antt =====
-- enkiTS: a task scheduler for C++ programs that runs task sets, split in ranges, on several threads.
--
-- The parts of the program, and the files that model them:
--
-- * src/LockLessMultiReadPipe.h, class LockLessMultiReadPipe: the queue of each thread and priority,
--   with one writer and many readers. `Pipe.antt` has ReaderTryReadBack, WriterTryReadFront,
--   WriterTryWriteFront, IsPipeEmpty and Clear as whole calls; `Pipe/Deque.antt` the bounded deque
--   that they promise, and `Pipe/Serves.antt`, `Pipe/Quiet.antt` and `Pipe/Refine.antt` that they
--   keep the promise; `Pipe/Wrap.antt` what happens where m_WriteIndex wraps. `Pipe/Machine.antt` has
--   the same functions one atomic access at a time, interleaved, with the invariant and what follows
--   from it in the modules below it.
-- * src/LockLessMultiReadPipe.h, class LocklessMultiWriteIntrusiveList: the list of pinned tasks of a
--   thread. `IntrusiveList.antt` has its operations over a heap of nodes, as whole calls;
--   `IntrusiveList/Machine.antt` has WriterWriteFront and ReaderReadBack one access at a time, for any
--   number of writers and the owner in any order, a node being added only while it is in no list.
-- * src/TaskScheduler.h and src/TaskScheduler.cpp, class TaskScheduler. `Scheduler.antt` has its
--   members, those of ICompletable, ITaskSet and IPinnedTask, and the commands on them.
--   `Scheduler/Split.antt` has SplitTask; `Scheduler/Wake.antt` HaveTasks, the Wake functions,
--   WaitForNewTasks and WaitForTaskCompletion; `Scheduler/Add.antt` SplitAndAddTask,
--   AddTaskSetToPipeInt, AddPinnedTaskInt, OnDependenciesComplete and TaskComplete;
--   `Scheduler/Hash.antt` Hash32; `Scheduler/Running.antt` RunPinnedTasks and TryRunTask;
--   `Scheduler/Threads.antt` StartThreads, StopThreads, Initialize and the registration of external
--   threads; `Scheduler/Waiting.antt` AddTaskSetToPipe, AddPinnedTask, InitDependencies, WaitforTask,
--   WaitforAll, WaitForNewPinnedTasks and TaskingThreadFunction. `Scheduler/Work.antt` measures what
--   the pipes hold and what was executed. `Scheduler/Sleep.antt` has WaitForNewTasks, HaveTasks and
--   WakeThreadsForNewTasks one atomic access at a time, for any number of threads in any order, with
--   the pipes as counts of pieces; `Scheduler/Completing.antt` has WaitForTaskCompletion, TaskComplete
--   and WakeThreadsForTaskCompletion in the same way, with what HaveTasks finds left open.
--   `Scheduler/Add/Joining.antt`, `Scheduler/Add/Onward.antt`, `Scheduler/Add/Dependents.antt` and
--   `Scheduler/Add/JoinAll.antt` follow tasks that depend on several others. `Scheduler/Running/Pinned.antt`
--   and `Scheduler/Running/AllPinned.antt` follow RunPinnedTasks, `Scheduler/Running/Search.antt` and
--   `Scheduler/Running/Found.antt` the search of TryRunTask. `Scheduler/Drain.antt` and the modules below it follow a thread
--   that waits for a task set whose pieces are all in its own pipe.
-- * src/TaskScheduler.cpp, class Dependency. `Dependency.antt` has SetDependency, ClearDependency and
--   the constructors over a store of addresses.
-- * src/TaskScheduler.cpp and src/TaskScheduler.h, the memory of TaskScheduler. `Memory.antt` has
--   NewArray, DeleteArray, Alloc, Free, SemaphoreNew and SemaphoreDelete, and what StartThreads,
--   StopThreads and Initialize allocate and give back, as calls of the user's CustomAllocator;
--   `Memory/Balance.antt` keeps account of the calls.
-- * src/TaskScheduler_c.cpp, the C interface. `CApi.antt` has the functions that do more than pass
--   their arguments on, `CApi/Objects.antt` those that create and delete objects or copy a
--   configuration, with programs that use them in `CApi/Objects/Session.antt`, and
--   `CApi/Forwards.antt` the others.
-- * src/example/ParallelSum.cpp, an example of use. `Example/ParallelSum.antt` has its two task sets,
--   over the calls in a log of the scheduler.
--
-- How they meet: the scheduler's model keeps a pipe as the list of its pieces and uses the deque of
-- `Pipe/Deque.antt`, which the pipe refines; it keeps a pinned list as the list of its nodes, which
-- `IntrusiveList/Refine.antt` relates to the links; and the dependents of a task as a list, which
-- `Dependency/Links.antt` relates to the links. The calls of user code, ExecuteRange and Execute, and
-- the completions are events of a log.
--
-- Numbers: a uint32_t, and an int32_t that is only added to and compared, is a natural number with
-- `% 2 ^ 32` written out. The counts of threads are integers. A loop takes fuel, and a chain of
-- completions a depth; a run without enough is `out_of_fuel`, and a wait for another thread is
-- `blocked`. For SplitAndAddTask the fuel that is enough is one round more than the partition has
-- indexes, for a call of the pipe one round, for RegisterExternalTaskThread one round, for
-- ClearDependency one more than the dependents, and for the loop of WaitforTask one more than the
-- task set has indexes. A division by 0, which the source leaves undefined, is 0 here: an m_MinRange
-- of 0 can lead to one in SplitAndAddTask, and the theorems about splitting ask for a positive range;
-- StartThreads leaves both numbers of partitions positive.
--
-- Not modelled: memory orders weaker than sequential consistency; several threads at once in the
-- scheduler's other functions, which are commands that run to their end; the operating system's
-- threads and semaphores (a semaphore is its count); the functions of an allocator, of which only the
-- addresses that they give are used; SpinWait; the distribution over
-- Windows processor groups; a body of a task that calls the scheduler; the other examples and the
-- tests, which time and print.
pub mod Base
pub mod Pipe
pub mod CApi
pub mod Example
pub mod Memory
pub mod Dependency
pub mod IntrusiveList
pub mod Scheduler
mod Tests

-- ===== src/Lib.antt =====
-- libdyplo: queues between software and logic, files, and the driver's devices.
--
-- Parts of the program and the files that model them:
--   * exceptions.hpp, generics.hpp, scopedlock.hpp: Effects. A call is a function of the state to a
--     result and the state after it. The result is a value, an exception, `waiting` (the call has
--     not returned within the rounds that the model grants) or `fault` (undefined in C++: an access
--     outside the memory, or an overflow of `int`).
--   * queue.hpp, FixedMemoryQueueImpl: Queue (the members, `increment`, the counts), Queue/Operations
--     (`begin_write`, `end_write`, `begin_read`, `end_read`, `wait_empty`, `push_one`, `pop_one`,
--     `clear`, interrupts). Pointers are offsets from `m_buff`; `unsigned int` wraps at 2 ^ 32. The
--     template argument `Scheduler` is a record of calls (Scheduling). Queue/Valid has the
--     well-formed states, Queue/Contents the elements that a state stands for, Queue/Calls each call
--     under a scheduler whose triggers only touch their own state, Queue/Fifo the bounded FIFO and
--     Queue/Blocks clients that move blocks.
--   * queue.hpp, SingleElementQueue: Single, with Single/Fifo.
--   * pthreadscheduler.cpp, noopscheduler.cpp, cooperativescheduler.hpp: Schedulers/Pthread,
--     Schedulers/Noop, Schedulers/Cooperative. A thread that waits on a condition sees the others'
--     turns, a list of what they do to the queue; Schedulers/Waits has how waiting ends.
--   * fileio.cpp, class File: FileIo, over the answers of the system calls. A file is the pieces in
--     which `::read` delivers it. FileIo/ReadAll has what `read_all` returns, and
--     FileIo/Errors the text of an IOException.
--   * hardware.cpp, HardwareContext: Devices (`openFifo`, `openDMA`, `openConfig`, `openControl`,
--     `openAvailableDMA`, `openAvailableWriteFifo`, `openAvailableReadFifo`) and Partitions
--     (`parse_number_from_name`, `getAvailablePartitionsIn`, `findPartitionIn`); Devices/Available
--     has which node is opened, Devices/Errno what is in `errno` when none is; directoryio.hpp and
--     the methods that look in a function's directory are Partitions/Directories. The operating
--     system's answers, and the directory's entries, are parameters.
--   * hardware.cpp, `parse_u16` and `swap_buffer_aligned`: Bitstream/Bytes, on lists of bytes, with
--     words in little-endian order. FpgaImageReader: Bitstream/Description (`parseDescriptionTag`) and
--     Bitstream/Reader (`processTag`, `processFile`), over a record of the callback's operations;
--     FpgaImageFileWriter: Bitstream/Writer, an instance of that record, with the answers of `::write`
--     as a list. Bitstream/Copy has .bin and .partial files; Bitstream/Chunks, Convert, Header, Parts
--     and Image have .bit files.
--   * hardware.cpp, HardwareDMAFifo: Dma, over the driver's answers. A block pointer is an index.
--     Dma/Layout, Dma/Rotation, Dma/Flush and Dma/Reconfigure have what its operations do.
--   * filequeue.hpp, filequeue.cpp: FileQueue/Poller (FilePollScheduler), FileQueue/Output
--     (FileOutputQueue), FileQueue/Input (FileInputQueue), over the answers of `poll`, `::write` and
--     `::read`. A buffer is the bytes of its elements. FileQueue/Delivery has what is sent,
--     FileQueue/Arrival, with its Turn and Load, what is taken in, and
--     FileQueue/Carry what is kept.
--   * hardware.cpp, HardwareProgrammer: Programmer, another instance of the callback of the image
--     reader, over Dma or a CPU fifo; Programmer/Padding has how a block is filled
--     up with NOPs, and Programmer/Blocks, with the modules below it, what the blocks of a driver
--     that serves them bring.
--     Programmer/Setup has the constructor, `fromFile`, the destructor, and `program` of
--     HardwareControl, which goes through the three; Programmer/Setup/Outcomes has how the
--     constructor ends; Programmer/Setup/Delivery is a .bin file that goes through `program` and a
--     CPU fifo, Programmer/Setup/ByDma one that goes by DMA, and Programmer/Setup/BitFile and
--     BitByDma are .bit files.
--     Effects/Alike relates calls on two kinds of states, Bitstream/Simulation runs of the image
--     reader with two callbacks that answer alike, and Programmer/CpuFifo the programmer over a
--     CPU fifo and a file's writer.
--   * hardware.cpp and hardware.hpp, HardwareControl, HardwareConfig, HardwareFifo: Control, over the
--     driver's answers to the requests of dyplo-ioctl.h. Control/Nodes has the enabling of nodes;
--     Control/License is `writeDyploLicenseFile`, on lines of characters, with
--     Control/License/RoundTrip.
--   * cooperativeprocess.hpp: Processes/Cooperative. The state of the scheduler of the input queue is
--     the output queue, since committing to the one runs the process that writes to the other.
--     Processes/Cooperative/Transfer has what a run moves, and Processes/Cooperative/Feed a producer
--     with the queue, the process and the next queue together.
--   * threadedprocess.hpp, thread.hpp: Processes/Threaded (what the thread runs, with
--     Processes/Threaded/Drain) and Processes/Lifecycle (the object and its thread, with
--     Processes/Lifecycle/Reachable). Processes/Blocks has what a block function makes of a queue.
--   * testdyplostress.cpp, StressNode and the constructor of Stress: Stress, over the registers
--     of a node; Stress/Lanes has that the lanes do not share any. Stopwatch is that of
--     testdyplobenchmark.cpp.
--   * testdyplosolver.cpp, Partitioner and WeightedPartitioner: Solver, with Solver/Masks;
--     Solver/Greedy and Solver/Greedy/FirstFit have the first, Solver/Weighted the second, with
--     Solver/Weighted/Bound (assignments, and the bound of the search) and Solver/Weighted/Optimal. A
--     function of an FPGA is a mask of partitions and a score.
--   * dyplodemocryptoapp.cpp: Demos/Crypto, over the file queues, with Demos/Crypto/Reads, Writes and
--     Sent. dyplodemohdlapp.cpp: Demos/Mohdl, with Demos/Mohdl/Configured. dyplodemoapp.cpp:
--     Demos/Chain (the functions of its processes and the loop of `main`), with Demos/Chain/Numbers
--     and Words, and Demos/Chain/Sink (ThreadedProcessSink), with Demos/Chain/Sink/Shown and Life.
--     Demos/Integers is `atoi` and the output of an `int`, with Demos/Integers/RoundTrip.
-- Prelude has the shared names and the lemmas on lists, Words the lemmas on bits, and Tests the code
-- and the theorems at concrete inputs.
--
-- Bounds. The loops that wait run for a number of rounds; a round for each turn of the other
-- threads, and one more, is enough. The loop of `read_all` runs once more than the file has
-- pieces: each turn but the last uses one up. The loops of a file queue run for a number of
-- rounds; for those that write, one more than the file has answers is enough. The counting of
-- device nodes runs for a number of rounds, and one more than there are nodes is enough; `flush`
-- needs one round for each block. The loops of processes run for a number of turns, and one more
-- than the input has whole blocks is enough. The loops of `processFile` run for a number of
-- rounds, and one more than the file has bytes is enough. The other loops recur on their data. A partition number
-- that is asked for is not negative. The loops of the solvers recur on the 32 bits of a mask; one
-- that would go on beyond them is a result of its own.
--
-- What C++ or POSIX leaves undefined is a result of its own, `fault`: a store beyond a buffer, also
-- that of `processFile` into which `read_all` reads, NULL that is looked through, and a join of a
-- thread that is not there, as `m_thread` is after `pthread_create` has failed. A result that is
-- narrowed to an `unsigned int` has its `% 2 ^ 32`, and an answer that is kept in an `int` is less
-- than 0 from 2 ^ 31 on where the code asks.
--
-- Not modelled: the four standalone methods of HardwareDMAFifo, which hardware.hpp declares and
-- hardware.cpp does not define; mmapio.hpp, which no other source file
-- includes; the threads of dyplodemoapp.cpp together; the tests, but for the solvers of
-- testdyplosolver.cpp, the nodes of testdyplostress.cpp and the Stopwatch, and the build.
pub mod Prelude
pub mod Effects
pub mod Scheduling
pub mod Queue
pub mod Schedulers
pub mod Single
pub mod Words
pub mod Bitstream
pub mod FileIo
pub mod Partitions
pub mod Devices
pub mod Dma
pub mod FileQueue
pub mod Programmer
pub mod Tests
pub mod Processes
pub mod Control
pub mod Solver
pub mod Stress
pub mod Stopwatch
pub mod Demos

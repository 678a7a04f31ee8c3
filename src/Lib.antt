-- ===== src/Lib.antt =====
-- JiTBoy emulates MIPS-1 programs on x86 hosts, by interpreting them or by compiling their blocks to
-- host code. This library models the guest machine and its interpreter in full, the cutting of a
-- program into blocks, their compiler, the assembler and the linker that it emits code with, the
-- processor that reads this code, the direct linking of compiled blocks and the emulators that
-- execute them.
--
-- The parts and how they work together. A program (src/mips/program.hpp) maps addresses to decoded
-- instructions (src/mips/encoding.cpp). An emulator holds a state of registers, memory, program and
-- program counter (src/emulation/emulator_state.hpp). The interpreter (src/emulation/interpreter.cpp)
-- executes one instruction after another with the handlers of src/emulation/interpreter_core.cpp
-- while the counter is inside of the program; a taken branch executes its delay slot first. The JIT
-- emulators cut a block at the counter (src/emulation/block_partitioner.cpp), walk over it by the
-- addresses of src/emulation/source_block.cpp, and emit host code with the assembler of src/x86 into
-- the buffer of src/vector_buffer.hpp, which is then copied into executable memory. With direct
-- linking, src/emulation/jump_resolver.cpp overwrites the returns of a block by jumps to other blocks.
--
-- Which file models what:
--   Base          Boolean tests, lists, C++ words as natural numbers, outcomes with their faults
--   Bits          bitwise operations as arithmetic, for the masks and fields of the code
--   Mips.Isa      src/mips/mips.hpp, src/mips/instruction.hpp
--   Mips.Encoding      decode_instruction and encode_instruction of src/mips/encoding.cpp
--   Mips.RegisterFile  src/mips/register_file.hpp and .cpp: read is operator[], write is write
--   Mips.MemoryMap     src/mips/memory_map.hpp and .cpp: read and write are read<T> and write<T>
--   Mips.Program       src/mips/program.cpp, and load_binary of src/mips/loader.cpp
--   Mips.Classify      src/mips/utils.cpp
--   Emulation.State    src/emulation/emulator_state.hpp
--   Emulation.Handlers     one function for each execute_* of src/emulation/interpreter_core.cpp
--   Emulation.InterpreterCore  its dispatch: execute is execute(pc), dispatch is execute(Instruction)
--   Emulation.Interpreter  src/emulation/interpreter.cpp
--   Emulation.SourceBlock, Emulation.BlockPartitioner  the files of the same names
--   Emulation.CompiledBlock, Emulation.JumpResolver  the files of the same names, and the two jumps
--   Emulation.Runtime      src/emulation/runtime.hpp and .cpp; BlockMap is its map of blocks with the
--                          loop that links them, which is relink_blocks of hybrid_runtime.cpp
--   Emulation.HybridRuntime  src/emulation/hybrid_runtime.hpp and .cpp with the queues that it uses
--                          of src/threading; Threads has the compiling threads as steps
--   Emulation.Compiler     src/emulation/compiler.hpp and compiler.cpp: Registers, Arithmetic,
--                          MemoryAccess, Control and Dispatch have the methods that emit
--                          code, Block the one that compiles a block; Codes, Accesses, Views, Moves,
--                          Translates and Refinement compare the code with the interpreter, Room
--                          is about the place for links, Nesting about delay slots; CompilerConfig
--                          is src/emulation/compiler_config.hpp
--   VectorBuffer       src/vector_buffer.hpp and .cpp
--   X86.Isa, X86.Utils src/x86/x86.hpp, src/x86/utils.cpp
--   X86.Assembler      src/x86/assembler.hpp and .cpp, with Instr and Jump for its instructions
--   X86.Linker         src/x86/linker.hpp and .cpp; a label is a number
--   Memory             src/memory/executable_allocator.hpp, dynamic_executable_allocator.hpp,
--                      fixed_pool.hpp, pool_handle.hpp; Clients has the users of a pool as steps
--   Threading          the shutdown of src/threading/worker_pool.hpp
--   X86.Decode         no code: what the processor reads from the bytes of a jump
--   X86.Processor      no code: the instructions that the compiler emits, read and executed
--   Tests              theorems at concrete inputs
--
-- Conventions. An unsigned integer is a natural number and wraps by an explicit modulus; a signed
-- one is its two's complement pattern. State is passed explicitly. An exception is a value of Fault;
-- undefined behaviour that the code can reach (a shift by too much, a division by zero) is the fault
-- undefined. A method of the compiler is a step from compiler to compiler or a fault. The processor
-- holds its memory as words, which is all that compiled code reads and writes among the guest's
-- registers; the flags that an instruction leaves open are a parameter. The maps of the code are
-- functions: the guest's memory is only reached through operator[], which reads 0 for a missing key.
-- Where the operating system places new memory, on which
-- page it lies, what the processor does with the code of a block and the order in which a map is
-- walked are parameters.
--
-- Fuel. The functions execute and jump of the interpreter core call each other; fuel counts the
-- nested calls, and two are enough if no delay slot holds a branch. So it is with compile, where a
-- branch in a delay slot is an exception; a block is compiled with a fuel of two, and its loop with
-- one round for each of its bytes and one more. The loops of the interpreter and
-- of the partitioner have a fuel of their rounds; a finite program that ends below the top of the
-- address space needs one round for each word. A run of the hybrid runtime takes a list with what
-- the other threads do before each of its rounds.
--
-- Not modelled: the factory of emulators (src/emulation/emulator_factory.cpp), the names of labels
-- (src/label_generator.cpp), the threads of src/threading/thread_pool.cpp, the assembly parser, which
-- stands on std::regex, printing, logs, files, timing and the test runner, and the third-party
-- libraries of src/libs. Constructors of registers' second names ($v0 and the like, EAX and AX) are
-- numbers.
pub mod Base
pub mod Bits
pub mod Mips
pub mod Emulation
pub mod VectorBuffer
pub mod X86
pub mod Memory
pub mod Threading
pub mod Tests

-- ===== src/Lib.antt =====
-- mclo, a C++ library of containers and utilities: models of some of its parts with the theorems that
-- hold of them.
--
-- The parts and where they are modelled (the C++ paths start at include/mclo):
--
-- * container/circular_buffer.hpp, in CircularBuffer and the modules under it. The buffer is a record
--   of the members of `circular_buffer`: its storage is a list of cells, each empty or holding an
--   object (Storage), and the pointers m_head, m_tail and m_data_end are offsets from m_data. An
--   operation has the name of the method and returns the buffer after it. Assign has the copies, the
--   moves, `swap` and `make_contiguous`, Iterator the iterators and `erase`, Inv what it is for a
--   buffer to hold a list, and the other modules the theorems. Deque is the specification: a list
--   with a bound, in which a push on a full queue drops the element at the other end.
-- * container/slot_map_handle.hpp, in SlotMapHandle: a handle is the values of its two bit-fields, and
--   a store into a bit-field is the remainder by its width. The combined value is computed in the type
--   that the generation is promoted to.
-- * container/dense_slot_map.hpp, in SlotMap and the modules under it. The values and the reverse map
--   are lists as long as m_size says, the slots are a list of handles, and the free list runs through
--   the indices of the slots from m_free_list_head to m_free_list_tail. Capacity has the growth of the
--   arrays, Slots the operations on all slots. Inv has the invariant: every slot belongs to a value that
--   names it back or is a link of the free list.
-- * allocator/arena_allocator.hpp with source/allocator/arena_allocator.cpp, in Arena and the modules
--   under it: the chunks with their addresses, and the current address. What operator new returns is an
--   argument of an operation. Steps has the relation of several requests, Reuse the other operations.
-- * container/detail/bitset_base.hpp with bitset.hpp and dynamic_bitset.hpp, in Bitset and the modules
--   under it: a set is its size and the list of its words, and the number of bits in a word is a
--   parameter. Words has the invariant and the membership of a position, Trim the trimming of the last
--   word, and the other modules the theorems. Common/Digits has the laws of binary digits.
-- * random/chacha.hpp with source/random/chacha.cpp, in Chacha and the modules under it: the state, the
--   keystream and the index into it. Skip has the calls of `operator()` one after another.
-- * container/intrusive_forward_list.hpp, in IntrusiveForwardList and the modules under it: the m_next
--   members of all hooks are one function from addresses to links, and a list object is the address of
--   its m_head. The loops run on fuel, one step for an element and one for the end of the list. Links
--   has what it is for hooks to hold a list; sort and merge are not modelled.
-- * numeric/checked_math.hpp, saturated_math.hpp and overflowing_math.hpp with the functions they call in
--   numeric/detail/overflowing_intrinsics.hpp, in Arithmetic: the unsigned types there, the signed ones
--   in Signed, over the integers of Common. Product has the theorem on the signed product, Exact and
--   Clamped compare all operations with exact arithmetic. Some compilers' intrinsics take the place of
--   the functions modelled; they are left out.
-- * threading/spin_mutex.hpp, in SpinMutex and the modules under it: the place of every thread in the
--   methods and m_lock, with a step of a thread for each access. Steps has the runs of several threads,
--   Inv the mutual exclusion and Progress the freedom from deadlock.
-- * random/splitmix64.hpp with source/random/splitmix64.cpp, and avalanche_bits of
--   random/seed_mixing.hpp, in Splitmix.
-- * threading/work_stealing_deque.hpp, in WorkStealingDeque and the modules under it: the members with
--   all storages that there have been, and the places of the owner and of the thieves in their methods;
--   a step is one access to an atomic member, and the accesses are in one order. Ring has the storage,
--   Inv the invariant, OwnerSteps and ThiefSteps that every step keeps it, and Runs the whole.
--
-- Common holds what the parts share: operators, Boolean tests on numbers, lists over the native numbers
-- and the reads of a list after a write. The result `none` stands for what C++ leaves undefined or a
-- debug assertion refuses: an access outside an array, a read or the destruction of an object where none
-- lives. Constructing an object where one lives is defined, as in C++, and ends the old one's life; the
-- assertions of `erase` that a position is between begin and end are left out. An exception is a value of
-- its own.
--
-- Integers are natural numbers, with the remainder by the power of two written out where the code can
-- wrap. In the containers the sizes are assumed to stay below 2^64, as they count objects in memory.
-- The loops are recursion on the number of elements that are left, so that no fuel is needed.
--
-- Not modelled: the failure of allocation, exceptions that constructors of elements throw, the order
-- of destructors, and the components whose behaviour is the compiler's (type lists, concepts, the
-- preprocessor and the platform headers). Growth by a floating-point factor is a parameter (Growth).
pub mod Arena
pub mod Arithmetic
pub mod Bitset
pub mod Chacha
pub mod CircularBuffer
pub mod Common
pub mod Deque
pub mod IntrusiveForwardList
pub mod SlotMap
pub mod SlotMapHandle
pub mod SpinMutex
pub mod Splitmix
pub mod Storage
pub mod WorkStealingDeque

-- ===== src/Lib.antt =====
-- KEK on Rails: a model of the virtual machine.
--
-- KEK is an object-oriented language. Its compiler (compiler/, C++) writes a .kexe file: tables of
-- classes, methods and symbols, constants and bytecode. The virtual machine (vm/, C) loads the file
-- and runs the bytecode over a stack and a heap of objects. This development models the
-- machine, and of the compiler the lexer and what writes the file.
--
-- Outcome and State: how a function of the C code becomes a definition. A function that changes
-- global state takes the state and gives a result with the new state, or one of the ways to stop:
-- vm_error and a failed assert end the process, an access outside an object and an operation that C
-- leaves undefined are stops of their own.
--
-- Loader, vm/loader.c: load_uint8 to load_string (Loader/Read), load_sym to load_classes
-- (Loader/Records), load_magic to kexe_load (Loader/Image), each under its C name, on the bytes of
-- the file as the list that is still to be read. Loader/Writer is the writer in
-- compiler/bcout.cpp, classout_w8 to bcout_to_file. Numbers in the file are little-endian. The
-- loops over tables recurse on the count of the table. Loader/RoundTrip, Loader/Prefix and
-- Loader/Facts hold the theorems.
--
-- Objects and Heap, vm/types.h and vm/memory.c: a reference is a value by its tag, the heap a map
-- from addresses to objects, with the segment allocator that gc_obj_malloc uses when gc_type_g is
-- GC_NONE. The bits of a tagged word and the layout of an object in bytes are not modelled, except
-- for sizes.
--
-- Array, vm/k_array.c and the array functions of vm/memory.c: the head of an array and its object of
-- elements are separate objects, as in the code, each with a length and an allocated size. The loop
-- that enlarges the allocated size runs on fuel: the length asked for is enough from a size of two
-- on. Array/Cells and Array/Items say what an array in the heap is.
--
-- RootSet, vm/memory.c: the linked list of root variables, on nodes that can be freed. Walks run on
-- fuel; one more than the length of the list is enough. RootSet/Chain says what a list in memory is.
--
-- Machine, vm/stack.h, vm/stack.c and vm/k_integer.c: the stack, its registers, and the macros
-- BC_CALL, BC_TCALL, BC_RET and BC_RET_SELF. An index below the stack's first slot or behind the
-- allocation is a bad access. Machine/Runs has the runs of the code of a call as a relation, with
-- calls inside it.
--
-- Classes, vm/vm.c: the table of classes once it is loaded, with a parent as an index
-- (Classes/Table), and the counts and offsets that are computed once (Classes/Layout). The
-- recursions over parents run on fuel; as many rounds as a class has parents, with itself, are
-- enough. The address of an object that an allocator makes is a parameter of calc_syms_offset.
--
-- Exceptions, vm/vm.c: find_handler_for_exobj and vm_throw_obj, over the frames of Machine. The search
-- runs on fuel; one more than the number of frames is enough.
--
-- Operators, vm/vm.c: bc_bop and the instructions UNM, NOT and IFNJ (Operators/Bop) over the operators
-- on ints (Operators). A signed overflow, a division by zero and a shift that C does not define are
-- stops; a shift to the right of a negative number keeps the sign.
--
-- Indexing, vm/vm.c: the instruction IDX, over the stack of Machine and the arrays of Array.
--
-- RememberSet, vm/memory.c: gc_os_remove_dups_in_rs on the set as a list, which is owned by one
-- pointer.
--
-- Space, OldSpace and Cheney, vm/memory.c: the generational and the copying collector. Space is
-- the state of the new space with copy_obj_to_space_free and the sizes of objects (vm_obj_size);
-- OldSpace is gc_os_is_in_old, gc_os_add_item and gc_os_rec_cpy_neighbors; Cheney has the walk
-- over one object (copy_root_obj, copy_neighbor, copy_neighbor_inner) and Cheney/Roots the roots
-- (gc_rootset), gc_cheney_scavenge, gc_cheney_malloc and gc_cheney_init. The code serves every
-- collector that the variable gc_type_g selects; the theorems are about GC_NEW, where nothing goes
-- to the old space. The scan loop runs on fuel: more rounds than the to-space has bytes are
-- enough. The recursion of gc_os_rec_cpy_neighbors runs on fuel that bounds its depth. Memory that
-- was given back keeps what stood in it, and the identity numbers of objects, used in messages
-- only, are left out. Cheney/Whole says what a heap is that a collection may start with;
-- Cheney/Copying says what one copy does, Cheney/Moves to Cheney/Scan carry it through the loops,
-- Cheney/Collection gives the whole collection, and Cheney/Observe with Cheney/Unseen what a
-- program can see of it.
--
-- Interp, vm/vm.c: vm_execute_bc. Interp is the state and the operands of an instruction, with the
-- addresses that instructions put on the stack; Interp/StaticSyms is SYM_STATIC; Interp/Members
-- has the instructions for variables of classes and objects, Interp/Sends the inline caches,
-- Interp/Calls the instructions CALL, CALLS, CALLE and NEW, and Interp/Step all others with one
-- step and the loop. Each instruction is one definition, over the stack of Machine, the operators
-- of Operators, the arrays of Array and the classes of Classes. The record World holds what the
-- interpreter does not compute itself: the addresses of the stack's header, of classes and of
-- static variables, what memory of a new object holds, and the native methods. An inline cache
-- stands apart from the code, by its address. The loop runs on fuel, one round an instruction,
-- since a program need not end.
--
-- ObjTable, vm/memory.c: obj_table_find, obj_table_add and obj_table_regptr, on the table as a list
-- of entries. OldSpace/Barrier is gc_os_write_barrier. Memory that is not cleared is a parameter.
--
-- Lexer, compiler/lexan.cpp: readLexem on the input as a list of characters, from the state q0 on. A
-- character is a byte, which the code reads as a signed char. A
-- name or a text that does not fit the buffer is a bad access, a number out of the range of int is
-- undefined. Blanks and comments go back to q0, on fuel; more rounds than the input has characters
-- are enough.
--
-- Not modelled: the release of the old space's objects, the call of the write barrier by ST, which is for
-- the generational collectors only, the re-entry of the loop by longjmp after an exception in
-- a native method, the initialisers of classes and main, the methods of strings and other native
-- methods, input and output, which is the C library's, and the compiler between its lexer and the
-- writing of the file, which is C++.
pub mod Array
pub mod Base
pub mod Cheney
pub mod Classes
pub mod Exceptions
pub mod Heap
pub mod Indexing
pub mod Int
pub mod Interp
pub mod Lexer
pub mod Loader
pub mod Machine
pub mod ObjTable
pub mod Objects
pub mod OldSpace
pub mod Operators
pub mod Outcome
pub mod RememberSet
pub mod RootSet
pub mod Space
pub mod State

-- ===== src/Lib.antt =====
-- The Piux kernel: its parts as definitions, and what makes each of them right.
--
-- The program is a kernel for a 32-bit PC. Its C files keep their state in static variables and call
-- one another directly; interrupts, the network card and the disk reach it through a few entry
-- points. Here the static variables of a file are a record, each of its functions is a function
-- from that record to the next, and what comes from outside (ports, packets, what a process does,
-- what a file holds) is an argument. Addresses, lengths and counters are natural numbers; where the
-- source counts in 8, 16 or 32 bits the remainder is written out, and where it subtracts, the tests
-- before the subtraction are there too. Memory that is copied is a function from an index to a byte,
-- text that ends at a zero byte is a list of the bytes before it.
--
-- The parts:
-- - Prelude: tests, lists, the integers that the functions return, buffers and the copy loops over
--   them, tables checked entry by entry, and sums written with bit operations.
-- - CStrings: the bounded length and copy loops that several files have a version of.
-- - RamFs, kernel/ramfs.c and ramfs.h: the file store in memory. `Ramfs` is `ramfs_t`, with a list
--   of slots; a name or content of a file is kept as the source keeps it. RamFs/Names is about the
--   comparison of names, RamFs/Find about the search, RamFs/Store and RamFs/Create about writing
--   and creating, RamFs/Inv about every sequence of operations.
-- - Memory, kernel/memory.c and memory.h: the allocator that never frees, the check of a range that
--   a system call is given, and the page tables that map each address to itself.
-- - Process, kernel/process.c and process.h: the table of 32 processes and the round-robin
--   scheduler. The switch to a process is a function argument that says what the process leaves.
-- - Mouse, kernel/mouse.c and mouse.h: the packets of three or four bytes, and the ring of events
--   that the interrupt handler fills and `mouse_poll` empties.
-- - Keyboard, kernel/keyboard.c and keyboard.h: scancodes, modifiers, layouts and the setting in a
--   file. Two scancodes read behind the tables; what stands there is an argument.
-- - Net, kernel/net.c and net.h: byte order, the checksum, addresses as text, names in a query.
-- - Tcp, kernel/tcp.c: the client for one connection. Packets are bytes in memory with fields in
--   network order, as the source stores them; what is passed to `ip_send` is kept as a trace, and
--   what each `net_poll` receives is an argument. It uses the byte order and the checksum of Net.
-- - Arp, kernel/arp.c: the cache of eight addresses.
-- - Network, kernel/eth.c, ip.c, udp.c, icmp.c and the packets of kernel/arp.c. `Host` is their state
--   with the card: the frames that wait there and those that were sent, as lists of bytes.
--   Network/Link, Network/Address, Network/Packet, Network/Datagram and Network/Echo have what sends
--   and what handles, Network/Poll receiving. `net_poll`, which resolving an address calls, is an
--   argument of them, and so is `tcp_handle_packet` of Network/Poll.
-- - Elf, kernel/elf.c: the loader of programs over an interface of files, with the memory as a
--   function of the address and the check of ranges of Memory. Elf/Segments is about where it stores.
--   An offset in the file wraps at 32 bits as the source's does, and then reads what stands in front
--   of the buffer of the file.
--   A copy past the end of the 32-bit address space, which only a segment with more bytes in the file
--   than in memory reaches, is not wrapped.
-- - Auth, kernel/auth.c: Auth has the records of the password file and their search, Auth/Digest
--   SHA-256 as the file writes it out, Auth/Interface the calls of ext2 on the password file, any of
--   which may fail, with what a disk whose reads succeed promises of them, Auth/Accounts the file as a
--   list of accounts, Auth/Create creating a user. A buffer that is filled past its end is not cut off: the text of a record is as
--   long as the stores make it.
-- - Vfs, kernel/vfs.c and vfs.h: the table of 32 descriptors, the devices, and files. What the file
--   calls below it is a record of operations on any state, Vfs/Interface, that every definition
--   takes. Vfs/Devices has the devices, Vfs/Table the search for a free descriptor, Vfs/Inv what
--   every call keeps, Vfs/Open opening and closing, Vfs/Files reading.
-- - Ext2, kernel/ext2.c and ext2.h: the file system on the disk. `Ext2` is `ext2_filesystem_t` with
--   the disk below it; the structures on the disk are bytes with fields at the offsets of ext2.h.
--   The driver of the disk is the record `Disk` of Ext2/Disk, with what a disk that keeps its
--   sectors promises, as far as kernel/ata.c can address it: 1 to 255 sectors at a time, below 2 ^ 28. Ext2/Blocks has the mount and the blocks, Ext2/Inodes the inodes and their
--   pointers, Ext2/Bitmaps taking and giving back blocks and inodes, Ext2/Names names and paths,
--   Ext2/Entries the entries of one directory block, Ext2/Dirs directories and the walk along a
--   path, Ext2/Files the data of files, Ext2/Create and Ext2/Delete what changes directories.
--   A function that may fail is a `Fallible` step of Prelude/Steps, whose state is the state up to
--   the failure, so that what was written before a failure is on the disk.
--
-- Loops are recursion on what they count or read. Some use fuel: the fold of the checksum has 4
-- rounds, where 3 are enough for a sum of 32 bits (`fold_sum_lem` of Net/Checksum); the wait of
-- `tcp_connect` has the 300000 attempts of the source; and `keyboard_read_char`, which waits
-- without a bound, reads the list of what the ports give and has no result when the list is used
-- up. In kernel/ext2.c the loops over a directory block have as much fuel as the block has bytes,
-- and a round moves on by at least 8 (Ext2/Search has the runs of the search, Ext2/Lookup that more
-- fuel changes nothing: `find_entry_fuel`), the walk along a path has the length of the path and
-- one more, and the loop that reads a file has the number of bytes wanted. `net_poll` has the depth
-- of the calls inside one another, each of which takes a frame from the card before it handles it.
-- Reading a file in kernel/elf.c has as many rounds as its buffer has bytes, and each one reads at
-- least a byte; the search of the records in kernel/auth.c and the blocks of the digest have as
-- many as there are bytes.
--
-- Not modelled: port input and output and assembly (the start, the descriptor tables, the network
-- card, the disk, the timer, the switch of contexts), the screen, the windows and the installer,
-- and TLS, which is a library's. Of kernel/net.c the exchange with the name server is left out, of
-- kernel/mouse.c the setup of the device. In kernel/tcp.c a poll that `ip_send` makes while it
-- resolves an address, and that may handle a packet in the middle of another, is an argument of
-- `tcp_close` and left out elsewhere. What kernel/vfs.c calls (ext2, the accounts and the disk) are
-- operations of its interface. Of kernel/auth.c the prompts and the loop of the login are left out.
-- The system calls, the clients of DHCP and HTTP and the commands have no model here.
pub mod Prelude
pub mod Arp
pub mod Auth
pub mod CStrings
pub mod Elf
pub mod Ext2
pub mod Keyboard
pub mod Memory
pub mod Mouse
pub mod Net
pub mod Network
pub mod Process
pub mod RamFs
pub mod Tcp
pub mod Vfs
